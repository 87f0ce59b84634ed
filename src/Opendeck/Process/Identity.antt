-- ===== src/Opendeck/Process/Identity.antt =====
-- opendeck-broker/opendeck_broker/process.py: what the creation time of a process counts without psutil.
use home_ailab.Prelude.{ℕ, ◌≡◌, refl, inl, inr, false, Option, none, some, ℤ, Option-cases}
use home_ailab.Opendeck.Process.{
  System, start_time_ms, alive_exit, alive_windows, is_alive_pid, is_alive,
}

exit_ignores :
    (sys : System) (pid : ℤ) (start code : Option ℕ)
    → System.has_psutil sys ≡ false
    → alive_exit sys pid start code ≡ alive_exit sys pid none code
unfolding alive_exit start_time_ms
exit_ignores sys pid start none h = refl
exit_ignores sys pid start (some code) h = rw h refl

windows_ignores :
    (sys : System) (pid : ℤ) (start : Option ℕ)
    → System.has_psutil sys ≡ false
    → alive_windows sys pid start ≡ alive_windows sys pid none
unfolding alive_windows
windows_ignores sys pid start h = elim (Option-cases (System.open_process sys pid)) [
  | inl gone ↦ rw (gone, alive_windows) refl
  | inr (handle, there) ↦
      rw (there, alive_windows) (exit_ignores sys pid start (System.exit_code sys handle) h)
]

-- Without psutil the creation time that was registered has no effect on any system: a process that
-- got the pid of one that ended counts as the one that registered.
pub is_alive-ignores_start :
    (sys : System) (pid : Option ℤ) (start : Option ℕ)
    → System.has_psutil sys ≡ false
    → is_alive sys pid start ≡ is_alive sys pid none
unfolding is_alive is_alive_pid
is_alive-ignores_start sys none start h = refl
is_alive-ignores_start sys (some pid) start h = rw (windows_ignores sys pid start h, h) refl
