-- ===== src/Vm/Config/Made.antt =====
-- The configuration that internal/spind/vm/start/manager.go makes of an image for a new VM. The
-- random identifiers are a parameter.
use spind.Prelude.{Bool, Bytes, List, [], codes, false, if◌then◌else◌, true, ℕ, ◌∷◌}
use spind.Text.Words.{contains}
use spind.Snapshot.{join}
use spind.Vm.{or_else, or_default}
use spind.Vm.Config.{
  DiskMetadata, ImageMetadata, RunnerDisk, RunnerConfig, HypervisorDisk, HypervisorConfig,
}
use spind.Vm.Config.CommandLine.{cloud_hypervisor_kernel_command_line}

pub record Random : Type 0 where
  pub machine_identifier : Bytes
  pub guest_mac : Bytes

abbrev pub names_docker : ImageMetadata → Bool
names_docker image = contains (codes "docker") image.name

unfoldable pub default_memory : ImageMetadata → ℕ
default_memory image = if names_docker image then 2048 else 1024

abbrev pub if_docker : ImageMetadata → Bytes → Bytes
if_docker image value = if names_docker image then value else []

abbrev pub is_none_listed : List DiskMetadata → Bool
is_none_listed [] = true
is_none_listed (disk ∷ disks) = false

unfoldable pub runner_config_disks : Bytes → List DiskMetadata → List RunnerDisk
runner_config_disks vm_dir [] = []
runner_config_disks vm_dir (disk ∷ disks) =
    record { path = join vm_dir disk.name; read_only = disk.read_only }
    ∷ runner_config_disks vm_dir disks

unfoldable pub cloud_hypervisor_disks : Bytes → List DiskMetadata → List HypervisorDisk
cloud_hypervisor_disks vm_dir [] = []
cloud_hypervisor_disks vm_dir (disk ∷ disks) =
    record {
      path = join vm_dir disk.name;
      read_only = disk.read_only;
      image_type = disk.image_type;
    }
    ∷ cloud_hypervisor_disks vm_dir disks

unfoldable pub runner_config : Random → Bytes → Bytes → ImageMetadata → RunnerConfig
runner_config random name vm_dir image = record {
  name = name;
  kernel_path = join vm_dir (codes "kernel");
  initramfs_path = join vm_dir (codes "initramfs");
  disk_path = if is_none_listed image.disks then join vm_dir (codes "disk.img") else [];
  disks = runner_config_disks vm_dir image.disks;
  log_path = join vm_dir (codes "runner.log");
  exec_socket_path = join vm_dir (codes "exec.sock");
  control_socket_path = join vm_dir (codes "control.sock");
  restore_state_path = [];
  machine_identifier = random.machine_identifier;
  exec_port = 10222;
  docker_socket_path = join vm_dir (codes "docker.sock");
  docker_port = 10240;
  tcp_forward_path = join vm_dir (codes "tcp-forward.sock");
  tcp_forward_port = 10241;
  network_mac = random.guest_mac;
  host_share_path = [];
  host_share_tag = codes "spind-cwd";
  host_share_socket_path = join vm_dir (codes "mount.sock");
  host_share_port = 10242;
  cpu_count = or_default image.cpu_count 2;
  memory_mib = or_default image.memory_mib (default_memory image);
  kernel_command_line = or_else image.kernel_command_line (codes "console=hvc0");
}

unfoldable pub cloud_hypervisor_config : Random → Bytes → Bytes → ImageMetadata → HypervisorConfig
cloud_hypervisor_config random name vm_dir image = record {
  name = name;
  kernel_path = join vm_dir (codes "kernel");
  initramfs_path = join vm_dir (codes "initramfs");
  disk_path = join vm_dir (codes "disk.img");
  disks = cloud_hypervisor_disks vm_dir image.disks;
  api_socket_path = join vm_dir (codes "cloud-hypervisor-api.sock");
  vsock_socket_path = join vm_dir (codes "cloud-hypervisor-vsock.sock");
  serial_log_path = join vm_dir (codes "serial.log");
  vmm_log_path = join vm_dir (codes "cloud-hypervisor.log");
  event_log_path = join vm_dir (codes "cloud-hypervisor-event.log");
  guest_cid = 3;
  net_backend = if_docker image (codes "passt");
  net_socket_path = if_docker image (join vm_dir (codes "passt.sock"));
  net_log_path = if_docker image (join vm_dir (codes "passt.log"));
  net_tap_name = [];
  net_mac = if_docker image random.guest_mac;
  host_share_path = [];
  host_share_tag = codes "spind-cwd";
  host_share_socket_path = join vm_dir (codes "cloud-hypervisor-virtiofs.sock");
  host_share_log_path = join vm_dir (codes "virtiofsd.log");
  host_share_port = 10242;
  exec_port = 10222;
  cpu_count = or_default image.cpu_count 2;
  memory_mib = or_default image.memory_mib (default_memory image);
  kernel_command_line =
      or_else (cloud_hypervisor_kernel_command_line image)
        (codes "console=ttyS0 root=/dev/vda1 rw");
}
