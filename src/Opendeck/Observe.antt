-- ===== src/Opendeck/Observe.antt =====
-- opendeck-broker/opendeck_broker/opencode/observe.py: what the broker learns of the conversations
-- from OpenCode's database. The rows of the query are a parameter.
pub mod Filing
pub mod Summary
mod Tests
use home_ailab.Prelude.{
  ℕ, zero, suc, ◌+◌, String, Bool, true, false, not, ◌||◌, Option, none, some, List, [], ◌∷◌, ◌++◌,
  Result, ok, ◌>>=◌, Dict, lookup, insert, ltb, nonempty, join_texts, decimal, if◌then◌else◌,
}
use home_ailab.Opendeck.Model.{Status}
use home_ailab.Opendeck.Paths.{norm_dir}

abbrev pub run_window_ms : ℕ
run_window_ms = 15000

-- a row of `QUERY`: a live session and its counts
pub record Row : Type 0 where
  pub id : String
  pub directory : Option String
  pub title : Option String
  pub last_part_upd : Option ℕ
  pub pending_q : Option ℕ
  pub pending_perm : Option ℕ
  pub active : Option ℕ

pub record SessionState : Type 0 where
  pub directory : String
  pub has_session : Bool
  pub status : Status
  pub pending_questions : List String
  pub pending_permissions : List String
  pub session_id : String
  pub title : String

-- `SessionState.has_pending_input`
unfoldable pub has_pending_input : SessionState → Bool
has_pending_input st = nonempty st.pending_questions || nonempty st.pending_permissions

-- the dictionaries that the loop over the rows fills
pub record Tally : Type 0 where
  pub by_dir : Dict SessionState
  pub latest : Dict (Option ℕ)
  pub active_tool : Dict ℕ

-- x or 0
abbrev pub or_zero : Option ℕ → ℕ
or_zero none = 0
or_zero (some n) = n

-- x or ""
abbrev pub or_blank : Option String → String
or_blank none = ""
or_blank (some s) = s

-- `[f"{tag}-{sid}-{i}" for i in range(n)]`, from `i`
unfoldable pub request_ids : String → String → ℕ → ℕ → List String
unfolding decimal
request_ids tag sid i zero = []
request_ids tag sid i (suc n) =
    join_texts tag (join_texts "-" (join_texts sid (join_texts "-" (decimal i))))
    ∷ request_ids tag sid (i + 1) n

-- `SessionState(directory=d, session_id=sid, title=title or "")`
abbrev pub new_state : String → Row → SessionState
new_state d row = record {
  directory = d;
  has_session = false;
  status = Status.idle;
  pending_questions = [];
  pending_permissions = [];
  session_id = row.id;
  title = or_blank row.title;
}

abbrev pub questions_of : Row → List String
questions_of row = request_ids "q" row.id 0 (or_zero row.pending_q)

abbrev pub permissions_of : Row → List String
permissions_of row = request_ids "p" row.id 0 (or_zero row.pending_perm)

-- the two `extend`s
abbrev pub add_requests : Row → SessionState → SessionState
add_requests row st = record st {
  pending_questions = st.pending_questions ++ questions_of row;
  pending_permissions = st.pending_permissions ++ permissions_of row;
}

abbrev pub state_or_new : String → Row → Option SessionState → SessionState
state_or_new d row none = new_state d row
state_or_new d row (some st) = st

-- `d not in latest or (last_part_upd or 0) > (latest[d] or 0)`
abbrev pub is_later : Row → Option (Option ℕ) → Bool
is_later row none = true
is_later row (some old) = ltb (or_zero old) (or_zero row.last_part_upd)

abbrev pub max_ℕ : ℕ → ℕ → ℕ
max_ℕ a b = if ltb a b then b else a

-- one round of the loop over the rows
unfoldable pub file_row : Row → Tally → Tally
unfolding norm_dir request_ids
file_row row t =
    let d = norm_dir row.directory in
    record {
      by_dir = insert d (add_requests row (state_or_new d row (lookup d t.by_dir))) t.by_dir;
      latest =
          if is_later row (lookup d t.latest)
          then insert d row.last_part_upd t.latest
          else t.latest;
      active_tool =
          insert d (max_ℕ (or_zero (lookup d t.active_tool)) (or_zero row.active)) t.active_tool;
    }

unfoldable pub file_rows : List Row → Tally → Tally
unfolding file_row
file_rows [] t = t
file_rows (row ∷ rows) t = file_rows rows (file_row row t)

-- `lpu is not None and now - lpu < run_window_ms`
abbrev pub is_recent : ℕ → ℕ → Option ℕ → Bool
is_recent now window none = false
is_recent now window (some lpu) = ltb now (lpu + window)

abbrev pub get_time : Option (Option ℕ) → Option ℕ
get_time none = none
get_time (some t) = t

-- one round of the loop over the directories
abbrev pub decide : ℕ → ℕ → Option (Option ℕ) → Option ℕ → SessionState → SessionState
decide now window latest active st = record st {
  has_session = true;
  status =
      if ltb 0 (or_zero active) || is_recent now window (get_time latest)
      then Status.busy
      else Status.idle;
}

unfoldable pub decide_all : ℕ → ℕ → Tally → Dict SessionState → Dict SessionState
decide_all now window t [] = []
decide_all now window t ((d, st) ∷ entries) =
    (d, decide now window (lookup d t.latest) (lookup d t.active_tool) st)
    ∷ decide_all now window t entries

abbrev pub empty_tally : Tally
empty_tally = record { by_dir = []; latest = []; active_tool = [] }

-- `snapshot_by_directory`: `exists` is whether the database file is there, `query` what reading it
-- at that time gives or raises
unfoldable pub snapshot_by_directory : Bool → ℕ → ℕ → Result (List Row) → Result (Dict SessionState)
unfolding file_rows decide_all
snapshot_by_directory exists now window query =
    if not exists
    then ok []
    else do rows ← query; let t = file_rows rows empty_tally; ok (decide_all now window t t.by_dir)
