-- ===== src/Opendeck/Focus.antt =====
-- opendeck-broker/opendeck_broker/focus/windows.py: the window of a marker is found, brought to the
-- foreground, and the foreground is read back.
pub mod Targets
use Prim.Native.String
use text.Mathlib.Text.{starts_with}
use home_ailab.Prelude.{
  ℕ, zero, suc, String, Bool, true, false, ◌||◌, Option, none, some, List, [], ◌∷◌, ◌==◌, length,
  if◌then◌else◌, ltb, nonempty, not,
}

-- What the module takes from Windows and from Python's Unicode tables: `enumerate` lists the visible
-- windows with their titles, `show` and `set_foreground` may raise (the exception's text), and
-- `lower` is `str.lower`.
pub record Desktop : Type 1 where
  pub World : Type 0
  pub enumerate : World → List (ℕ × String)
  pub show : ℕ → ℕ → World → Option String × World
  pub set_foreground : ℕ → World → Option String × World
  pub get_foreground : World → ℕ
  pub lower : String → String

pub data FocusStatus : Type 0 where
  success stale not_found ambiguous focus_denied_or_wrong_target : FocusStatus

unfoldable pub focus_status_value : FocusStatus → String
focus_status_value FocusStatus.success = "success"
focus_status_value FocusStatus.stale = "stale"
focus_status_value FocusStatus.not_found = "not_found"
focus_status_value FocusStatus.ambiguous = "ambiguous"
focus_status_value FocusStatus.focus_denied_or_wrong_target = "focus_denied_or_wrong_target"

-- the texts of `detail`, one constructor for each format string of the source
pub data Detail : Type 0 where
  nothing no_target : Detail
  raised no_window no_assignment : String → Detail
  many : ℕ → String → Detail
  observed_other : ℕ → ℕ → Detail

pub record FocusResult : Type 0 where
  pub status : FocusStatus
  pub hwnd : Option ℕ
  pub observed_foreground : Option ℕ
  pub detail : Detail

-- `FocusResult(status, detail=detail)`
abbrev pub failed : FocusStatus → Detail → FocusResult
failed s d = record { status = s; hwnd = none; observed_foreground = none; detail = d }

-- `m in t`
unfoldable pub is_in : String → String → Bool
is_in m String.[] = starts_with String.[] m
is_in m (String.◌∷◌ c t) = starts_with (String.◌∷◌ c t) m || is_in m t

abbrev pub sw_restore : ℕ
sw_restore = 9

-- the tests of `resolve` on the list of matches
unfoldable pub verdict : List ℕ → FocusStatus
verdict [] = FocusStatus.not_found
verdict (h ∷ []) = FocusStatus.success
verdict (h ∷ k ∷ hs) = FocusStatus.ambiguous

-- the handler of an exception of `show` or `set_foreground`
unfoldable pub denied : ℕ → String → FocusResult
denied hwnd e = record {
  status = FocusStatus.focus_denied_or_wrong_target;
  hwnd = some hwnd;
  observed_foreground = none;
  detail = Detail.raised e;
}

module _ (desk : Desktop) where
  open desk use {World, enumerate, show, set_foreground, get_foreground, lower}

  -- the handles of the windows whose title holds the marker
  unfoldable pub matching : String → List (ℕ × String) → List ℕ
  matching m [] = []
  matching m ((h, t) ∷ ws) = if is_in m (lower t) then h ∷ matching m ws else matching m ws

  unfoldable pub resolve : String → World → FocusStatus × List ℕ
  unfolding matching verdict
  resolve marker w =
      let matches = matching (lower marker) (enumerate w) in (verdict matches, matches)

  -- the end of `focus`: the foreground is observed
  unfoldable pub check_foreground : ℕ → World → FocusResult
  check_foreground hwnd w =
      if get_foreground w == hwnd
      then record {
        status = FocusStatus.success;
        hwnd = some hwnd;
        observed_foreground = some (get_foreground w);
        detail = Detail.nothing;
      }
      else record {
        status = FocusStatus.focus_denied_or_wrong_target;
        hwnd = some hwnd;
        observed_foreground = some (get_foreground w);
        detail = Detail.observed_other hwnd (get_foreground w);
      }

  -- `focus` after `set_foreground`
  unfoldable pub focus_end : ℕ → Option String × World → FocusResult × World
  unfolding check_foreground denied
  focus_end hwnd (some e, w) = (denied hwnd e, w)
  focus_end hwnd (none, w) = (check_foreground hwnd w, w)

  -- `focus` after `show`
  unfoldable pub focus_next : ℕ → Option String × World → FocusResult × World
  unfolding focus_end denied
  focus_next hwnd (some e, w) = (denied hwnd e, w)
  focus_next hwnd (none, w) = focus_end hwnd (set_foreground hwnd w)

  unfoldable pub focus : ℕ → World → FocusResult × World
  unfolding focus_next
  focus hwnd w = focus_next hwnd (show hwnd sw_restore w)

  -- `focus_marker` once the windows are matched; the tests on the status are the patterns
  unfoldable pub focus_matches : String → List ℕ → World → FocusResult × World
  unfolding focus
  focus_matches marker [] w = (failed FocusStatus.not_found (Detail.no_window marker), w)
  focus_matches marker (h ∷ []) w = focus h w
  focus_matches marker (h ∷ k ∷ hs) w =
      (failed FocusStatus.ambiguous (Detail.many (length (h ∷ k ∷ hs)) marker), w)

  unfoldable pub focus_marker : String → World → FocusResult × World
  unfolding focus_matches resolve
  focus_marker marker w = focus_matches marker (resolve marker w).1 w
