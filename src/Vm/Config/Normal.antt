-- ===== src/Vm/Config/Normal.antt =====
-- What internal/spind/vm/start/manager.go fills in when it reads the configuration of a VM.
use spind.Prelude.{
  Bool-cases, Bytes, arith, codes, false, if◌then◌else◌, inl, inr, is_empty, refl, str_eq, ℕ, ◌<◌,
  ◌≡◌,
}
use spind.Snapshot.{join}
use spind.Vm.{or_else, or_default}
use spind.Vm.Logs.{join_not_empty}
use spind.Vm.Config.{ImageMetadata, RunnerConfig, HypervisorConfig}
use spind.Vm.Config.Made.{
  Random, names_docker, default_memory, runner_config_disks, cloud_hypervisor_disks, runner_config,
  cloud_hypervisor_config,
}

unfoldable pub normalize_runner_config : Random → Bytes → RunnerConfig → RunnerConfig
normalize_runner_config random vm_dir config = record config {
  log_path = or_else config.log_path (join vm_dir (codes "runner.log"));
  exec_socket_path = or_else config.exec_socket_path (join vm_dir (codes "exec.sock"));
  control_socket_path = or_else config.control_socket_path (join vm_dir (codes "control.sock"));
  exec_port = or_default config.exec_port 10222;
  docker_socket_path = or_else config.docker_socket_path (join vm_dir (codes "docker.sock"));
  docker_port = or_default config.docker_port 10240;
  tcp_forward_path = or_else config.tcp_forward_path (join vm_dir (codes "tcp-forward.sock"));
  tcp_forward_port = or_default config.tcp_forward_port 10241;
  host_share_socket_path = or_else config.host_share_socket_path (join vm_dir (codes "mount.sock"));
  host_share_tag = or_else config.host_share_tag (codes "spind-cwd");
  host_share_port = or_default config.host_share_port 10242;
  cpu_count = or_default config.cpu_count 2;
  memory_mib = or_default config.memory_mib 1024;
  kernel_command_line = or_else config.kernel_command_line (codes "console=hvc0");
  machine_identifier = or_else config.machine_identifier random.machine_identifier;
  network_mac = or_else config.network_mac random.guest_mac;
}

abbrev pub passt_or_else : Bytes → Bytes → Bytes → Bytes
passt_or_else backend value default =
    if str_eq backend (codes "passt") then or_else value default else value

unfoldable pub normalize_cloud_hypervisor_config : Bytes → HypervisorConfig → HypervisorConfig
normalize_cloud_hypervisor_config vm_dir config = record config {
  api_socket_path =
      or_else config.api_socket_path (join vm_dir (codes "cloud-hypervisor-api.sock"));
  vsock_socket_path =
      or_else config.vsock_socket_path (join vm_dir (codes "cloud-hypervisor-vsock.sock"));
  serial_log_path = or_else config.serial_log_path (join vm_dir (codes "serial.log"));
  vmm_log_path = or_else config.vmm_log_path (join vm_dir (codes "cloud-hypervisor.log"));
  event_log_path = or_else config.event_log_path (join vm_dir (codes "cloud-hypervisor-event.log"));
  net_socket_path =
      passt_or_else config.net_backend config.net_socket_path (join vm_dir (codes "passt.sock"));
  net_log_path =
      passt_or_else config.net_backend config.net_log_path (join vm_dir (codes "passt.log"));
  host_share_socket_path =
      or_else config.host_share_socket_path (join vm_dir (codes "cloud-hypervisor-virtiofs.sock"));
  host_share_tag = or_else config.host_share_tag (codes "spind-cwd");
  host_share_log_path = or_else config.host_share_log_path (join vm_dir (codes "virtiofsd.log"));
  host_share_port = or_default config.host_share_port 10242;
  guest_cid = or_default config.guest_cid 3;
  exec_port = or_default config.exec_port 10222;
  cpu_count = or_default config.cpu_count 2;
  memory_mib = or_default config.memory_mib 1024;
  kernel_command_line =
      or_else config.kernel_command_line (codes "console=ttyS0 root=/dev/vda1 rw");
}

or_else_twice :
    (value default : Bytes) → or_else (or_else value default) default ≡ or_else value default
or_else_twice value default = ground arith

or_default_twice :
    (value default : ℕ) → or_default (or_default value default) default ≡ or_default value default
or_default_twice value default = ground arith

passt_twice :
    (backend value default : Bytes)
    → passt_or_else backend (passt_or_else backend value default) default
      ≡ passt_or_else backend value default
passt_twice backend value default = ground arith

hypervisor_twice :
    (vm_dir : Bytes) (config : HypervisorConfig)
    → normalize_cloud_hypervisor_config vm_dir (normalize_cloud_hypervisor_config vm_dir config)
      ≡ normalize_cloud_hypervisor_config vm_dir config
unfolding normalize_cloud_hypervisor_config
hypervisor_twice vm_dir config = simp (or_else_twice, or_default_twice, passt_twice)

or_else_full : (value default : Bytes) → is_empty value ≡ false → or_else value default ≡ value
or_else_full value default h = rw h refl

or_else_filled :
    (value first second : Bytes)
    → is_empty first ≡ false
    → or_else (or_else value first) second ≡ or_else value first
or_else_filled value first second h = ground arith

-- identifiers that are there
pub record IsFull (random : Random) : Type 0 where
  pub has_machine_identifier : is_empty random.machine_identifier ≡ false
  pub has_guest_mac : is_empty random.guest_mac ≡ false

runner_twice :
    (random again : Random) (vm_dir : Bytes) (config : RunnerConfig)
    → IsFull random
    → normalize_runner_config again vm_dir (normalize_runner_config random vm_dir config)
      ≡ normalize_runner_config random vm_dir config
unfolding normalize_runner_config
runner_twice random again vm_dir config full = simp (
  or_else_filled config.machine_identifier random.machine_identifier again.machine_identifier
      full.has_machine_identifier,
  or_else_filled config.network_mac random.guest_mac again.guest_mac full.has_guest_mac,
  or_else_twice,
  or_default_twice,
)

or_default_pos :
    (value default other : ℕ)
    → 0 < default
    → or_default (or_default value default) other ≡ or_default value default
or_default_pos value default other h = ground arith

default_memory_pos : (image : ImageMetadata) → 0 < default_memory image
unfolding default_memory
default_memory_pos image = ground arith

runner_made :
    (random again : Random) (name vm_dir : Bytes) (image : ImageMetadata)
    → IsFull random
    → normalize_runner_config again vm_dir (runner_config random name vm_dir image)
      ≡ runner_config random name vm_dir image
unfolding normalize_runner_config runner_config runner_config_disks is_empty default_memory
runner_made random again name vm_dir image full = simp (
  or_else_full random.machine_identifier again.machine_identifier full.has_machine_identifier,
  or_else_full random.guest_mac again.guest_mac full.has_guest_mac,
  join_not_empty,
  or_else_twice,
  or_default_twice,
  or_default_pos image.memory_mib (default_memory image) 1024 (default_memory_pos image),
)

hypervisor_made :
    (random : Random) (name vm_dir : Bytes) (image : ImageMetadata)
    → normalize_cloud_hypervisor_config vm_dir (cloud_hypervisor_config random name vm_dir image)
      ≡ cloud_hypervisor_config random name vm_dir image
unfolding normalize_cloud_hypervisor_config cloud_hypervisor_config cloud_hypervisor_disks str_eq
    is_empty
hypervisor_made random name vm_dir image =
    let memory =
      or_default_pos image.memory_mib (default_memory image) 1024 (default_memory_pos image) in
    elim (Bool-cases (names_docker image)) [
      | inl e ↦ rw e (simp (join_not_empty, or_else_twice, or_default_twice, memory) refl)
      | inr e ↦ rw e (simp (join_not_empty, or_else_twice, or_default_twice, memory) refl)
    ]

-- Where the random identifiers that were drawn first are not empty, and whatever is drawn again: the
-- configurations that a creation makes of an image are complete, so that reading them fills in
-- nothing, and what reading fills in any configuration stays at a second reading.
pub normalize_runner_config_lem :
    (random again : Random) (name vm_dir : Bytes) (image : ImageMetadata) (runner : RunnerConfig)
    (hypervisor : HypervisorConfig)
    → IsFull random
    → (normalize_runner_config again vm_dir (runner_config random name vm_dir image)
        ≡ runner_config random name vm_dir image)
      × (normalize_cloud_hypervisor_config vm_dir (cloud_hypervisor_config random name vm_dir image)
          ≡ cloud_hypervisor_config random name vm_dir image)
      × (normalize_runner_config again vm_dir (normalize_runner_config random vm_dir runner)
          ≡ normalize_runner_config random vm_dir runner)
      × (normalize_cloud_hypervisor_config vm_dir
            (normalize_cloud_hypervisor_config vm_dir hypervisor)
          ≡ normalize_cloud_hypervisor_config vm_dir hypervisor)
normalize_runner_config_lem random again name vm_dir image runner hypervisor full = (
  runner_made random again name vm_dir image full,
  hypervisor_made random name vm_dir image,
  runner_twice random again vm_dir runner full,
  hypervisor_twice vm_dir hypervisor,
)
