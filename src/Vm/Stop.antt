-- ===== src/Vm/Stop.antt =====
-- `Stop` of internal/spind/vm/start/manager.go, with `stopCloudHypervisor` of cloud_hypervisor.go.
use spind.Prelude.{
  Bool, Bytes, Result, [], codes, err, false, if◌then◌else◌, is_empty, not, ok, str_eq, true, ℕ,
  ◌∷◌, ◌>>=◌, ◌>>◌,
}
use spind.Text.Decimal.{itoa}
use spind.Snapshot.{join, cloud_hypervisor, virtualization_framework}
use spind.Vm.{
  readable, VmMetadata, VmError, not_found, read_metadata_failed, read_state_failed, invalid_name,
  or_else, validate_store_name,
}
use spind.Vm.State.{VmState, empty_state}
use spind.Vm.Status.{is_running, read_metadata, read_state}
use spind.Vm.Process.{sigterm, ProcessError, signal_process, wait_for_exit}
use spind.Vm.Cleanup.{
  Machine, end_process, unmount_host_share, cleanup_host_share, cleanup_host_share_artifacts,
  cleanup_cloud_hypervisor_docker_network, cleanup_endpoints,
}
use spind.Vm.Store.{VmDir}
pub mod Gone
pub mod Stopped
pub mod Metadata

pub data StopMode : Type 0 where
  graceful delete : StopMode

pub data StopError : Type 0 where
  refused : VmError → StopError
  process_failed : ProcessError → StopError
  runner_failed write_failed : StopError

-- the directory of the VM and the rest of the host
pub record Stopping (W : Type 0) : Type 0 where
  pub dir : VmDir
  pub world : W

abbrev pub stopped_state : Bytes → ℕ → VmState
stopped_state backend now = record empty_state {
  status = codes "stopped";
  backend = backend;
  updated_at = now;
}

abbrev pub shutdown_wait : StopMode → ℕ
shutdown_wait delete = 1000
shutdown_wait graceful = 5000

-- the metadata and the state of the VM, where it can be stopped
unfoldable pub stop_target : Bytes → VmDir → Result VmError (VmMetadata × VmState)
stop_target name dir = do
  validate_store_name name
  metadata ← read_metadata dir.metadata
  state ← read_state dir.state
  ok (metadata, state)

module _ {W : Type 0} (machine : Machine W) where
  unfoldable pub write_state : Bool → VmState → Stopping W → Result StopError Bool × Stopping W
  write_state result state s =
      if machine.write_fails s.world
      then (err write_failed, s)
      else (ok result, record s { dir = record s.dir { state = readable state } })

  -- The cleanups remove sockets, some of which are files of the directory. The paths in a state are
  -- those of sockets, and none is that of a JSON file of the VM.
  abbrev pub at_world : Stopping W → W → Stopping W
  at_world s w = record s {
    dir = record s.dir { files = machine.files_left w s.dir.files };
    world = w;
  }

  -- The Boolean result is of no use where there is an error.
  unfoldable pub write_stopped : Bool → Bytes → Stopping W → Result StopError Bool × Stopping W
  write_stopped result backend s =
      write_state result (stopped_state backend (machine.kernel.now s.world)) s

  unfoldable pub finish_cloud_hypervisor : VmState → Stopping W → Result StopError Bool × Stopping W
  finish_cloud_hypervisor state s =
      let w1 = cleanup_cloud_hypervisor_docker_network machine state s.world in
      write_stopped true cloud_hypervisor
        (at_world s (cleanup_host_share_artifacts machine state w1))

  -- whether the process exits in time upon a request to the VMM
  unfoldable pub request_exit : Bytes → ℕ → VmState → W → Bool × W
  request_exit path timeout state w =
      let w1 = machine.vmm_request state.cloud_hypervisor_api_socket_path path w in
      let (result, w2) = wait_for_exit machine.kernel state.pid timeout w1 in
      elim result [ ok _ ↦ (true, w2) | err _ ↦ (false, w2) ]

  unfoldable pub request_exits : StopMode → VmState → W → Bool × W
  request_exits graceful state w =
      let (exited, w1) = request_exit (codes "/api/v1/vm.shutdown") 10000 state w in
      let second = request_exit (codes "/api/v1/vmm.shutdown") (shutdown_wait graceful) state w1 in
      if is_empty state.cloud_hypervisor_api_socket_path
      then (false, w)
      else if exited
      then (true, w1)
      else second
  request_exits delete state w =
      if is_empty state.cloud_hypervisor_api_socket_path
      then (false, w)
      else request_exit (codes "/api/v1/vmm.shutdown") (shutdown_wait delete) state w

  unfoldable pub kill_vmm : StopMode → VmState → W → Result ProcessError (Unit {0}) × W
  kill_vmm mode state w =
      let (sent, w1) = signal_process machine.kernel state.pid sigterm w in
      elim sent [
        | err e ↦ (err e, w1)
        | ok _ ↦ end_process machine state.pid (shutdown_wait mode) w1
      ]

  unfoldable pub stop_cloud_hypervisor :
      StopMode → VmState → Stopping W → Result StopError Bool × Stopping W
  stop_cloud_hypervisor mode state s =
      let (exited, w1) = request_exits mode state s.world in
      let (killed, w2) = kill_vmm mode state w1 in
      if exited then finish_cloud_hypervisor state (at_world s w1) else elim killed [
        | ok _ ↦ finish_cloud_hypervisor state (at_world s w2)
        | err e ↦ (err (process_failed e), at_world s w2)
      ]

  -- `runner_path` is empty where there is no runner.
  unfoldable pub ask_to_exit : Bytes → ℕ → W → Result StopError (Unit {0}) × W
  ask_to_exit runner_path pid w =
      let (done, w1) = machine.run_runner (codes "stop" ∷ codes "--pid" ∷ itoa pid ∷ []) w in
      let (sent, w2) = signal_process machine.kernel pid sigterm w in
      if not (is_empty runner_path)
      then (if done then (ok tt, w1) else (err runner_failed, w1))
      else elim sent [ ok _ ↦ (ok tt, w2) | err e ↦ (err (process_failed e), w2) ]

  unfoldable pub stop_runner :
      Bytes → Bytes → VmState → Stopping W → Result StopError Bool × Stopping W
  stop_runner runner_path backend state s =
      let (asked, w1) = ask_to_exit runner_path state.pid s.world in
      let (exited, w2) = wait_for_exit machine.kernel state.pid 5000 w1 in
      elim asked [
        | err e ↦ (err e, at_world s w1)
        | ok _ ↦ elim exited [
          | err e ↦ (err (process_failed e), at_world s w2)
          | ok _ ↦ write_stopped true backend (at_world s w2)
        ]
      ]

  unfoldable pub stop_vm :
      StopMode → Bytes → Bytes → Bytes → VmState → Stopping W → Result StopError Bool × Stopping W
  stop_vm mode vm_dir runner_path backend state s =
      let cleaned =
        at_world s
          (cleanup_endpoints machine vm_dir state (cleanup_host_share machine state s.world)) in
      if not (is_running (machine.kernel.probe s.world) state)
      then write_stopped false backend cleaned
      else if str_eq backend cloud_hypervisor
      then stop_cloud_hypervisor mode state (
          at_world s
            (cleanup_endpoints machine vm_dir state (unmount_host_share machine state s.world)))
      else stop_runner runner_path backend state cleaned

  unfoldable pub stop :
      StopMode → Bytes → Bytes → Bytes → Stopping W → Result StopError Bool × Stopping W
  stop mode vm_store runner_path name s = elim (stop_target name s.dir) [
    | err e ↦ (err (refused e), s)
    | ok target ↦
        stop_vm mode (join vm_store name) runner_path
          (or_else target.0.backend virtualization_framework) target.1 s
  ]
