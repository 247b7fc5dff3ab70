-- ===== src/Vm/Config.antt =====
-- The configurations of the two hypervisors (internal/spind/backend/vz/config.go,
-- internal/spind/backend/cloudhypervisor/types.go) and the metadata of an image
-- (internal/spind/image/types.go).
use spind.Prelude.{Bool, Bytes, List, Option, ℕ}
pub mod CommandLine
pub mod Modules
pub mod Filtered
pub mod Made
pub mod Normal

pub record DiskCreateMetadata : Type 0 where
  pub size : Bytes
  pub fs_type : Bytes
  pub label : Bytes

pub record DiskMetadata : Type 0 where
  pub name : Bytes
  pub read_only : Bool
  pub image_type : Bytes
  pub create : Option DiskCreateMetadata

pub record ImageMetadata : Type 0 where
  pub name : Bytes
  pub image_type : Bytes
  pub architecture : Bytes
  pub created_at : ℕ
  pub kernel_command_line : Bytes
  pub exec_user : Bytes
  pub cpu_count : ℕ
  pub memory_mib : ℕ
  pub ssh_authorized_key_command_line_param : Bytes
  pub disks : List DiskMetadata

pub record RunnerDisk : Type 0 where
  pub path : Bytes
  pub read_only : Bool

pub record RunnerConfig : Type 0 where
  pub name : Bytes
  pub kernel_path : Bytes
  pub initramfs_path : Bytes
  pub disk_path : Bytes
  pub disks : List RunnerDisk
  pub log_path : Bytes
  pub exec_socket_path : Bytes
  pub control_socket_path : Bytes
  pub restore_state_path : Bytes
  pub machine_identifier : Bytes
  pub exec_port : ℕ
  pub docker_socket_path : Bytes
  pub docker_port : ℕ
  pub tcp_forward_path : Bytes
  pub tcp_forward_port : ℕ
  pub network_mac : Bytes
  pub host_share_path : Bytes
  pub host_share_tag : Bytes
  pub host_share_socket_path : Bytes
  pub host_share_port : ℕ
  pub cpu_count : ℕ
  pub memory_mib : ℕ
  pub kernel_command_line : Bytes

pub record HypervisorDisk : Type 0 where
  pub path : Bytes
  pub read_only : Bool
  pub image_type : Bytes

pub record HypervisorConfig : Type 0 where
  pub name : Bytes
  pub kernel_path : Bytes
  pub initramfs_path : Bytes
  pub disk_path : Bytes
  pub disks : List HypervisorDisk
  pub api_socket_path : Bytes
  pub vsock_socket_path : Bytes
  pub serial_log_path : Bytes
  pub vmm_log_path : Bytes
  pub event_log_path : Bytes
  pub guest_cid : ℕ
  pub net_backend : Bytes
  pub net_socket_path : Bytes
  pub net_log_path : Bytes
  pub net_tap_name : Bytes
  pub net_mac : Bytes
  pub host_share_path : Bytes
  pub host_share_tag : Bytes
  pub host_share_socket_path : Bytes
  pub host_share_log_path : Bytes
  pub host_share_port : ℕ
  pub exec_port : ℕ
  pub cpu_count : ℕ
  pub memory_mib : ℕ
  pub kernel_command_line : Bytes
