-- ===== src/Vm/Process.antt =====
-- The processes in internal/spind/vm/start/manager.go: signals, and the wait for an exit. The system
-- calls are a parameter, `Kernel`, over a state `W` of the host. A time is in milliseconds.
use spind.Prelude.{
  Bool, Option, Result, err, false, if◌then◌else◌, ltb, none, not, ok, some, suc, true, zero, ℕ,
  ◌+◌, ◌==◌, ◌||◌,
}
use spind.Vm.Status.{KillResult, delivered, no_process, not_permitted, kill_failed, process_alive}
pub mod Exit

pub data Signal : Type 0 where
  sigterm sigkill : Signal

-- what `wait4` with WNOHANG returns: 0, the process id, ECHILD or another error
pub data WaitResult : Type 0 where
  unchanged reaped no_child wait_failed : WaitResult

-- `probe` is `kill(pid, 0)`, which sends no signal.
pub record Kernel (W : Type 0) : Type 0 where
  pub probe : W → ℕ → KillResult
  pub kill : ℕ → Signal → W → KillResult × W
  pub wait4 : ℕ → W → WaitResult × W
  pub sleep : ℕ → W → W
  pub now : W → ℕ

pub data ProcessError : Type 0 where
  signal_failed reap_failed did_not_stop out_of_fuel : ProcessError

unfoldable pub signal_result : KillResult → Result ProcessError (Unit {0})
signal_result delivered = ok tt
signal_result no_process = ok tt
signal_result not_permitted = err signal_failed
signal_result kill_failed = err signal_failed

unfoldable pub reap_result : WaitResult → Result ProcessError Bool
reap_result unchanged = ok false
reap_result reaped = ok true
reap_result no_child = ok false
reap_result wait_failed = err reap_failed

module _ {W : Type 0} (kernel : Kernel W) where
  unfoldable pub signal_process : ℕ → Signal → W → Result ProcessError (Unit {0}) × W
  signal_process pid signal w =
      let (result, w') = kernel.kill pid signal w in
      if pid == 0 then (ok tt, w) else (signal_result result, w')

  unfoldable pub reap_process : ℕ → W → Result ProcessError Bool × W
  reap_process pid w = let (result, w') = kernel.wait4 pid w in (reap_result result, w')

  -- one turn of the loop: `some` result where it returns
  unfoldable pub wait_turn : ℕ → W → Option (Result ProcessError (Unit {0})) × W
  wait_turn pid w =
      let (reaping, w') = reap_process pid w in
      elim reaping [
        | err e ↦ (some (err e), w')
        | ok done ↦
            if done || not (process_alive (kernel.probe w') pid)
            then (some (ok tt), w')
            else (none, kernel.sleep 100 w')
      ]

  -- the loop of `waitForExit`, up to `fuel` turns
  unfoldable pub wait_until : ℕ → ℕ → ℕ → W → Result ProcessError (Unit {0}) × W
  wait_until zero pid deadline w = (err out_of_fuel, w)
  wait_until (suc fuel) pid deadline w =
      let (turn, w') = wait_turn pid w in
      let again = wait_until fuel pid deadline w' in
      if ltb (kernel.now w) deadline
      then elim turn [ some result ↦ (result, w') | none ↦ again ]
      else (err did_not_stop, w)

  -- A turn sleeps for 100 ms, so there are fewer turns than milliseconds.
  unfoldable pub wait_for_exit : ℕ → ℕ → W → Result ProcessError (Unit {0}) × W
  wait_for_exit pid timeout w = wait_until (suc timeout) pid (kernel.now w + timeout) w
