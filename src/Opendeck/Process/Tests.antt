-- ===== src/Opendeck/Process/Tests.antt =====
-- opendeck-broker/opendeck_broker/process.py: the theorems at concrete systems, and tests.
use home_ailab.Prelude.{
  ℕ, ◌≡◌, refl, String, Bool, true, false, Option, none, some, Result, ok, raise, ℤ, pos, negsuc,
  Error, ◌==◌, if◌then◌else◌,
}
use home_ailab.Opendeck.Process.{Attached, System, Signal, is_alive}

-- process 7 was created at 1000, process 8 hides its time, every other pid is free
abbrev processes : ℤ → Attached
processes (negsuc n) = Attached.no_such_process
processes (pos n) =
    if n == 7
    then Attached.attached (ok 1000)
    else if n == 8
    then Attached.attached (raise Error.os_error)
    else Attached.no_such_process

abbrev handles : ℤ → Option ℕ
handles (negsuc n) = none
handles (pos n) = if n == 7 then some 70 else none

abbrev machine : Bool → String → System
machine psutil name = record {
  has_psutil = psutil;
  os_name = name;
  psutil_process = processes;
  open_process = handles;
  last_error = λ pid. 87;
  exit_code = λ h. some 259;
  kill_zero = λ pid. Signal.delivered;
}

is_alive_same : is_alive (machine true "nt") (some (pos 7)) (some 1000) ≡ ok true
unfolding is_alive
is_alive_same = refl

is_alive_recycled : is_alive (machine true "nt") (some (pos 7)) (some 999) ≡ ok false
unfolding is_alive
is_alive_recycled = refl

is_alive_raises :
    is_alive (machine true "nt") (some (pos 8)) (some 999) ≡ Result.raise Error.os_error
unfolding is_alive
is_alive_raises = refl
