-- ===== src/Vm/Stop/Metadata.antt =====
-- A stop leaves the metadata of its VM.
use spind.Prelude.{Bool, Bool-cases, Bytes, Result-cases, false, inl, inr, refl, str_eq, true, ◌≡◌}
use spind.Snapshot.{cloud_hypervisor}
use spind.Vm.State.{VmState}
use spind.Vm.Status.{is_running}
use spind.Vm.Process.{wait_for_exit}
use spind.Vm.Cleanup.{Machine}
use spind.Vm.Stop.{
  StopMode, Stopping, write_state, write_stopped, finish_cloud_hypervisor, request_exits, kill_vmm,
  stop_cloud_hypervisor, ask_to_exit, stop_runner, stop_vm, stop_target, stop,
}

module _ {W : Type 0} (machine : Machine W) where
  write_stopped-metadata :
      (result : Bool) (backend : Bytes) (s : Stopping W)
      → (write_stopped machine result backend s).1.dir.metadata ≡ s.dir.metadata
  unfolding write_stopped write_state
  write_stopped-metadata result backend s = elim (Bool-cases (machine.write_fails s.world)) [
    | inl e ↦ rw e refl
    | inr e ↦ rw e refl
  ]

  cloud_hypervisor-metadata :
      (mode : StopMode) (state : VmState) (s : Stopping W)
      → (stop_cloud_hypervisor machine mode state s).1.dir.metadata ≡ s.dir.metadata
  unfolding stop_cloud_hypervisor finish_cloud_hypervisor
  cloud_hypervisor-metadata mode state s =
      let requested = request_exits machine mode state s.world in
      elim (Bool-cases requested.0) [
        | inl e ↦ rw e (write_stopped-metadata true cloud_hypervisor _)
        | inr e ↦ elim (Result-cases (kill_vmm machine mode state requested.1).0) [
          | inl (_, e') ↦
              rw (stop_cloud_hypervisor, e, e') (write_stopped-metadata true cloud_hypervisor _)
          | inr (_, e') ↦ rw (stop_cloud_hypervisor, e, e') refl
        ]
      ]

  runner-metadata :
      (runner_path backend : Bytes) (state : VmState) (s : Stopping W)
      → (stop_runner machine runner_path backend state s).1.dir.metadata ≡ s.dir.metadata
  unfolding stop_runner
  runner-metadata runner_path backend state s =
      let asked = ask_to_exit machine runner_path state.pid s.world in
      elim (Result-cases asked.0) [
        | inr (_, e) ↦ rw (stop_runner, e) refl
        | inl (_, e) ↦ elim (Result-cases (wait_for_exit machine.kernel state.pid 5000 asked.1).0) [
          | inr (_, e') ↦ rw (stop_runner, e, e') refl
          | inl (_, e') ↦ rw (stop_runner, e, e') (write_stopped-metadata true backend _)
        ]
      ]

  stop_vm-metadata :
      (mode : StopMode) (vm_dir runner_path backend : Bytes) (state : VmState) (s : Stopping W)
      → (stop_vm machine mode vm_dir runner_path backend state s).1.dir.metadata ≡ s.dir.metadata
  unfolding stop_vm
  stop_vm-metadata mode vm_dir runner_path backend state s =
      elim (Bool-cases (is_running (machine.kernel.probe s.world) state)) [
        | inr e ↦ rw e (write_stopped-metadata false backend _)
        | inl e ↦ elim (Bool-cases (str_eq backend cloud_hypervisor)) [
          | inl e' ↦ rw (e, e') (cloud_hypervisor-metadata mode state _)
          | inr e' ↦ rw (e, e') (runner-metadata runner_path backend state _)
        ]
      ]

  pub stop-metadata :
      (mode : StopMode) (vm_store runner_path name : Bytes) (s : Stopping W)
      → (stop machine mode vm_store runner_path name s).1.dir.metadata ≡ s.dir.metadata
  unfolding stop
  stop-metadata mode vm_store runner_path name s = elim (Result-cases (stop_target name s.dir)) [
    | inl (target, e) ↦ rw (stop, e) (stop_vm-metadata mode _ runner_path _ target.1 s)
    | inr (_, e) ↦ rw (stop, e) refl
  ]
