-- ===== src/Vm/Info.antt =====
-- `Info` of internal/spind/vmstore/types.go: what the status of a VM reports.
use spind.Prelude.{Bool, Bytes, List, ℕ}

pub record VmInfo : Type 0 where
  pub name : Bytes
  pub status : Bytes
  pub backend : Bytes
  pub pid : ℕ
  pub exec_ready : Bool
  pub image : Bytes
  pub from_snapshot : Bool
  pub source_snapshot : Bytes
  pub restore_mode : Bytes
  pub vm_dir : Bytes
  pub state_path : Bytes
  pub exec_socket_path : Bytes
  pub cloud_hypervisor_api_socket_path : Bytes
  pub cloud_hypervisor_vsock_path : Bytes
  pub docker_socket_path : Bytes
  pub docker_endpoint_uri : Bytes
  pub docker_relay_pid : ℕ
  pub docker_guest_port : ℕ
  pub docker_api_support : Bytes
  pub docker_api_status : Bytes
  pub docker_api_ready : Bool
  pub docker_available : Bool
  pub docker_last_error : Bytes
  pub docker_log_path : Bytes
  pub docker_network_support : Bytes
  pub docker_network_status : Bytes
  pub docker_network_ready : Bool
  pub docker_network_last_error : Bytes
  pub docker_guest_ip_address : Bytes
  pub docker_default_route_ready : Bool
  pub docker_dns_ready : Bool
  pub docker_bridge_ready : Bool
  pub docker_pull_ready : Bool
  pub docker_tcp_forward_socket_path : Bytes
  pub docker_tcp_forward_guest_port : ℕ
  pub docker_port_relay_pid : ℕ
  pub docker_port_relay_support : Bytes
  pub docker_port_relay_status : Bytes
  pub docker_port_relay_ready : Bool
  pub docker_port_relay_log_path : Bytes
  pub docker_published_ports : List Bytes
  pub docker_network_backend : Bytes
  pub docker_network_backend_pid : ℕ
  pub docker_network_socket_path : Bytes
  pub docker_network_backend_log_path : Bytes
  pub docker_tap_name : Bytes
  pub docker_guest_mac : Bytes
  pub host_share_support : Bytes
  pub host_share_status : Bytes
  pub host_share_status_reason : Bytes
  pub host_share_path : Bytes
  pub host_share_ready : Bool
  pub host_share_last_error : Bytes
  pub host_share_mount_socket_path : Bytes
  pub host_share_guest_port : ℕ
  pub host_share_virtio_fs_pid : ℕ
  pub host_share_virtio_fs_socket_path : Bytes
  pub host_share_virtio_fs_log_path : Bytes
  pub kubernetes_support : Bytes
  pub kubernetes_status : Bytes
  pub kubernetes_ready : Bool
  pub kubernetes_last_error : Bytes
  pub kubernetes_kubeconfig_path : Bytes
  pub kubernetes_context : Bytes
  pub kubernetes_api_server_url : Bytes
  pub kubernetes_api_server_port : ℕ
  pub kubernetes_api_server_target_port : ℕ
  pub kubernetes_relay_pid : ℕ
  pub kubernetes_relay_log_path : Bytes
  pub registry_ready : Bool
  pub registry_last_error : Bytes
  pub registry_url : Bytes
  pub registry_port : ℕ
  pub registry_target_port : ℕ
  pub registry_relay_pid : ℕ
  pub registry_relay_log_path : Bytes
  pub registry_host_from_cluster : Bytes
  pub registry_local_hosting_updated : Bool
  pub serial_log_path : Bytes
  pub backend_log_path : Bytes
  pub event_log_path : Bytes
  pub started_at : ℕ
  pub updated_at : ℕ
  pub last_start_duration : ℕ
  pub log_paths : List Bytes
