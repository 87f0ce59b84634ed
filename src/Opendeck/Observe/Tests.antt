-- ===== src/Opendeck/Observe/Tests.antt =====
-- opendeck-broker/opendeck_broker/opencode/observe.py: the theorem at concrete rows, and tests.
use home_ailab.Prelude.{
  ℕ, ◌≡◌, refl, String, true, Option, none, some, [], ◌∷◌, ok, lookup, insert, Returns, arith, List,
  decimal,
}
use home_ailab.Opendeck.Model.{Status}
use home_ailab.Opendeck.Paths.{norm_dir}
use home_ailab.Opendeck.Observe.{
  Row, SessionState, run_window_ms, snapshot_by_directory, request_ids,
}
use home_ailab.Opendeck.Observe.Filing.{summary, gather, is_working, first_row}
use home_ailab.Opendeck.Observe.Summary.{snapshot-summary}

program : Unit {0}
unfolding norm_dir decimal request_ids lookup insert snapshot_by_directory gather is_working
    first_row
program = tt

abbrev row_of : String → String → Option ℕ → ℕ → ℕ → Row
row_of sid directory last questions active = record {
  id = sid;
  directory = some directory;
  title = none;
  last_part_upd = last;
  pending_q = some questions;
  pending_perm = some 0;
  active = some active;
}

-- two sessions of one directory, written in two ways, and one of another
abbrev rows : List Row
rows =
    row_of "s1" "C:\\work\\" (some 100000) 1 0
    ∷ row_of "s2" "/other" none 0 1
    ∷ row_of "s3" "C:/work" (some 120000) 2 0
    ∷ []

abbrev shown : Option SessionState
shown = some (record {
  directory = "C:/work";
  has_session = true;
  status = Status.busy;
  pending_questions = "q-s1-0" ∷ "q-s3-0" ∷ "q-s3-1" ∷ [];
  pending_permissions = [];
  session_id = "s1";
  title = "";
})

-- the directories' forms
norm_work : norm_dir (some "C:\\work\\") ≡ "C:/work"
unfolding program
norm_work = refl

ten : decimal 10 ≡ "10"
unfolding program
ten = refl

summary_work : summary 130000 run_window_ms "C:/work" rows ≡ shown
unfolding program
summary_work = refl

-- the same session is idle once its last part is older than the window
summary_later :
    summary 135000 run_window_ms "/work" (row_of "s" "/work" (some 120000) 0 0 ∷ [])
    ≡ some (record {
      directory = "/work";
      has_session = true;
      status = Status.idle;
      pending_questions = [];
      pending_permissions = [];
      session_id = "s";
      title = "";
    })
unfolding program
summary_later = refl

snapshot-summary_example :
    Returns
      (λ states. lookup "C:/work" states ≡ shown)
      (snapshot_by_directory true 130000 run_window_ms (ok rows))
unfolding program
snapshot-summary_example = snapshot-summary 130000 run_window_ms rows "C:/work" (omega arith)
