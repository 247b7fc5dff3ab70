-- ===== src/Tests/Vms.antt =====
-- A host with one process, and the VM that it runs.
use spind.Prelude.{
  Bool, [], arith, codes, err, false, if◌then◌else◌, inl, inr, is_empty, ok, refl, str_eq, true, ℕ,
  ◌&&◌, ◌+◌, ◌==◌, ◌≡◌, ◌≢◌, ◌≤◌, ◌⊎◌,
}
use spind.Snapshot.{cloud_hypervisor}
use spind.Snapshot.Prune.{has_name}
use spind.Vm.{VmMetadata, readable, missing, hydrate_vm_metadata}
use spind.Name.{valid_name, all_bytes, is_name_byte, is_alphanumeric}
use spind.Vm.State.{VmState, empty_state}
use spind.Vm.Info.{VmInfo}
use spind.Vm.Status.{
  KillResult, delivered, no_process, Host, process_alive, vm_status, info_of, read_metadata,
  read_state, live_status,
}
use spind.Vm.Logs.{vm_log_paths, backend_log_path, first_non_empty, all_distinct, vm_log_paths_lem}
use spind.Vm.Reported.{running}
use spind.Vm.Reported.Ready.{IsReported, vm_status-IsReported}
use spind.Vm.Json.Output.{Formats}
use spind.Vm.Process.{no_child, Kernel, out_of_fuel, did_not_stop, wait_for_exit}
use spind.Vm.Process.Exit.{Ticks, Reaps, wait_for_exit_returns, wait_for_exit_lem}
use spind.Vm.Store.{VmDir}
use spind.Vm.Cleanup.{Machine}
use spind.Vm.Stop.{Stopping}

-- the clock, and whether the process 7 is there
pub record Box : Type 0 where
  pub time : ℕ
  pub up : Bool

abbrev pub probe : Box → ℕ → KillResult
probe box pid = if box.up && pid == 7 then delivered else no_process

abbrev pub down : Box → Box
down box = record box { up = false }

abbrev pub kernel : Kernel Box
kernel = record {
  probe = probe;
  kill = λ pid sign box. (probe box pid, down box);
  wait4 = λ pid box. (no_child, box);
  sleep = λ t box. record box { time = box.time + t };
  now = λ box. box.time;
}

kernel-Ticks : Ticks kernel
kernel-Ticks = record { sleep_lasts = λ t w. omega arith; wait4_later = λ pid w. omega arith }

kernel-Reaps : Reaps kernel
kernel-Reaps = record { reaped_gone = λ pid w h. cc }

abbrev pub box : Box
box = record { time = 0; up = true }

wait_for_exit_returns_example : (wait_for_exit kernel 7 250 box).0 ≢ err out_of_fuel
wait_for_exit_returns_example = wait_for_exit_returns kernel kernel-Ticks 7 250 box

wait_for_exit_lem_example :
    let (result, w') = wait_for_exit kernel 7 250 box in
    ((result ≢ ok tt) ⊎ (process_alive (kernel.probe w') 7 ≡ false))
    × ((result ≢ err did_not_stop) ⊎ (kernel.now box + 250 ≤ kernel.now w'))
wait_for_exit_lem_example = wait_for_exit_lem kernel 7 250 box kernel-Reaps

abbrev pub machine : Machine Box
machine = record {
  kernel = kernel;
  remove = λ path w. w;
  files_left = λ w files. files;
  unmount_vsock = λ socket port path w. w;
  unmount = λ socket path w. w;
  vmm_request = λ socket path w. down w;
  network_command = λ args w. w;
  run_runner = λ args w. (true, down w);
  write_fails = λ w. false;
}

abbrev pub state : VmState
state = record empty_state {
  status = codes "running";
  backend = codes "cloud-hypervisor";
  pid = 7;
  cloud_hypervisor_api_socket_path = codes "/v/a/api.sock";
  vmm_log_path = codes "/v/a/vmm.log";
}

abbrev pub metadata : VmMetadata
metadata = record {
  name = codes "a";
  image = codes "docker";
  image_type = [];
  backend = codes "cloud-hypervisor";
  architecture = [];
  exec_user = [];
  created_at = 1;
  project_name = [];
  project_root = [];
  project_role = [];
  from_snapshot = false;
  source_snapshot = [];
  restore_state_path = [];
  cpu_count = 2;
  memory_mib = 2048;
  exec_port = 10222;
  kind_ready = false;
  k8s_distribution = [];
  kubeconfig_path = [];
}

abbrev pub dir : VmDir
dir = record {
  metadata = readable metadata;
  state = readable state;
  runner_config = missing;
  hypervisor_config = missing;
  files = [];
}

abbrev stopping : Stopping Box
stopping = record { dir = dir; world = box }

abbrev pub host : Host
host = record { probe = probe box; published_ports = λ socket. []; goarch = codes "amd64" }

abbrev pub info : VmInfo
info = info_of host (codes "/v/a") (codes "a") (hydrate_vm_metadata (codes "amd64") metadata) state

abbrev formats : Formats
formats = record { time_text = λ t. []; duration_text = λ d. [] }

status_runs : vm_status host (codes "/v") (codes "a") (readable metadata) (readable state) ≡ ok info
unfolding vm_status read_metadata read_state valid_name all_bytes is_name_byte is_alphanumeric
    str_eq
status_runs = refl

status_running : info.status ≡ running
unfolding info_of live_status process_alive str_eq
status_running = refl

vm_log_paths_lem_example :
    (has_name (codes "/v/a/vmm.log") (vm_log_paths (codes "/v/a") cloud_hypervisor state) ≡ true)
    × (has_name [] (vm_log_paths (codes "/v/a") cloud_hypervisor state) ≡ false)
    × (all_distinct (vm_log_paths (codes "/v/a") cloud_hypervisor state) ≡ true)
unfolding is_empty first_non_empty str_eq backend_log_path
vm_log_paths_lem_example =
    vm_log_paths_lem (codes "/v/a") cloud_hypervisor state (codes "/v/a/vmm.log") refl
      (inr (inl refl))

vm_status-IsReported_example : IsReported host metadata state info
vm_status-IsReported_example =
    vm_status-IsReported host (codes "/v") (codes "a") metadata state info status_runs
