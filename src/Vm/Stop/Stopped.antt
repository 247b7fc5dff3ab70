-- ===== src/Vm/Stop/Stopped.antt =====
-- What a stop leaves: the state `stopped` and no process, or an error and the state as it was.
use spind.Prelude.{Bool, Bytes, Result, err, false, ok, true, ℕ, ◌≡◌, ◌⊎◌}
use spind.Vm.{readable}
use spind.Vm.Store.{VmDir}
use spind.Vm.Cleanup.{Machine, alive}
use spind.Vm.Stop.{StopError, Stopping, stopped_state}

-- The metadata and the configurations of a VM are as they were.
abbrev pub SameSetup : VmDir → VmDir → Type 0
SameSetup before after =
    (after.metadata ≡ before.metadata)
    × (after.runner_config ≡ before.runner_config)
    × (after.hypervisor_config ≡ before.hypervisor_config)

abbrev pub Outcome :
    {W : Type 0}
    → Machine W
    → VmDir
    → Bytes
    → ℕ
    → Bool
    → Result StopError Bool × Stopping W
    → Type 0
Outcome machine dir backend pid was_running out =
    ((e : StopError) × (out.0 ≡ err e) × SameSetup dir out.1.dir × (out.1.dir.state ≡ dir.state))
    ⊎ (now : ℕ) × SameSetup dir out.1.dir
      × (out.1.dir.state ≡ readable (stopped_state backend now))
      × ((out.0 ≡ ok true) × (alive machine out.1.world pid ≡ false)
          ⊎ (out.0 ≡ ok false) × (was_running ≡ false))
