-- ===== src/Opendeck/Process.antt =====
-- opendeck-broker/opendeck_broker/process.py: whether the process that registered still runs. psutil
-- and the calls of the operating system are a parameter.
pub mod Identity
mod Tests
use home_ailab.Prelude.{
  ℕ, Bool, true, false, not, Option, none, some, Result, ok, raise, ◌>>=◌, ℤ, is_nonpositive, ◌==◌,
  String, str_eq, if◌then◌else◌,
}

-- `psutil.Process(pid)`; a process that is there has a creation time, or asking for it raises
pub data Attached : Type 0 where
  no_such_process access_denied : Attached
  attached : Result ℕ → Attached

-- `os.kill(pid, 0)`
pub data Signal : Type 0 where
  delivered no_process not_permitted : Signal

-- `psutil_process` has `int(create_time() * 1000)`; `exit_code` is `none` where
-- `GetExitCodeProcess` fails, and `open_process` where `OpenProcess` gives no handle.
pub record System : Type 0 where
  pub has_psutil : Bool
  pub os_name : String
  pub psutil_process : ℤ → Attached
  pub open_process : ℤ → Option ℕ
  pub last_error : ℤ → ℕ
  pub exit_code : ℕ → Option ℕ
  pub kill_zero : ℤ → Signal

abbrev pub still_active : ℕ
still_active = 259

-- `live_start != start_time` with a `start_time` that is not `None`
abbrev pub is_recycled : ℕ → Option ℕ → Bool
is_recycled live none = false
is_recycled live (some start) = not (live == start)

-- `try: return int(...) except Exception: return None`
abbrev pub try_time : Attached → Option ℕ
try_time Attached.no_such_process = none
try_time Attached.access_denied = none
try_time (Attached.attached (ok t)) = some t
try_time (Attached.attached (raise e)) = none

module _ (sys : System) where
  open sys use {has_psutil, os_name, psutil_process, open_process, last_error, exit_code, kill_zero}

  unfoldable pub start_time_ms : ℤ → Option ℕ
  start_time_ms pid = if has_psutil then try_time (psutil_process pid) else none

  -- `_alive_psutil` once `psutil.Process(pid)` is done
  unfoldable pub alive_attached : Attached → Option ℕ → Result Bool
  alive_attached Attached.no_such_process start = ok false
  alive_attached Attached.access_denied start = ok true
  alive_attached (Attached.attached time) none = ok true
  alive_attached (Attached.attached time) (some start) = do
    live ← time
    ok (not (is_recycled live (some start)))

  unfoldable pub alive_psutil : ℤ → Option ℕ → Result Bool
  unfolding alive_attached
  alive_psutil pid start = alive_attached (psutil_process pid) start

  abbrev recycled_since : Option ℕ → Option ℕ → Bool
  recycled_since none start = false
  recycled_since (some live) start = is_recycled live start

  -- `_alive_windows` at the exit code of the process
  unfoldable pub alive_exit : ℤ → Option ℕ → Option ℕ → Bool
  unfolding start_time_ms
  alive_exit pid start none = true
  alive_exit pid start (some code) =
      if code == still_active then not (recycled_since (start_time_ms pid) start) else false

  unfoldable pub alive_windows : ℤ → Option ℕ → Bool
  unfolding alive_exit
  alive_windows pid start = elim (open_process pid) [
    | none ↦ last_error pid == 5
    | some h ↦ alive_exit pid start (exit_code h)
  ]

  unfoldable pub alive_posix : ℤ → Bool
  alive_posix pid = elim (kill_zero pid) [
    | Signal.no_process ↦ false
    | Signal.not_permitted ↦ true
    | Signal.delivered ↦ true
  ]

  -- `is_alive` at a pid that is not `None`
  unfoldable pub is_alive_pid : ℤ → Option ℕ → Result Bool
  unfolding alive_psutil alive_windows alive_posix
  is_alive_pid pid start =
      if is_nonpositive pid
      then ok true
      else if has_psutil
      then alive_psutil pid start
      else if str_eq os_name "nt"
      then ok (alive_windows pid start)
      else ok (alive_posix pid)

  unfoldable pub is_alive : Option ℤ → Option ℕ → Result Bool
  unfolding is_alive_pid
  is_alive none start = ok true
  is_alive (some pid) start = is_alive_pid pid start
