-- ===== src/Vm/State.antt =====
-- `State` of internal/spind/vmstore/types.go: what `state.json` of a VM holds. A time is a number, the
-- zero time 0; a process id, a port and a duration are not negative.
use spind.Prelude.{Bool, Bytes, List, [], false, ℕ}

pub record VmState : Type 0 where
  pub status : Bytes
  pub backend : Bytes
  pub pid : ℕ
  pub exec_socket_path : Bytes
  pub control_socket_path : Bytes
  pub exec_port : ℕ
  pub cloud_hypervisor_api_socket_path : Bytes
  pub cloud_hypervisor_vsock_socket_path : Bytes
  pub guest_cid : ℕ
  pub serial_log_path : Bytes
  pub vmm_log_path : Bytes
  pub event_log_path : Bytes
  pub exec_ready : Bool
  pub docker_socket_path : Bytes
  pub docker_endpoint_uri : Bytes
  pub docker_relay_pid : ℕ
  pub docker_guest_port : ℕ
  pub docker_api_ready : Bool
  pub docker_available : Bool
  pub docker_last_error : Bytes
  pub docker_log_path : Bytes
  pub docker_network_ready : Bool
  pub docker_network_last_error : Bytes
  pub docker_guest_ip_address : Bytes
  pub docker_default_route_ready : Bool
  pub docker_dns_ready : Bool
  pub docker_bridge_ready : Bool
  pub docker_pull_ready : Bool
  pub docker_tcp_forward_socket_path : Bytes
  pub docker_tcp_forward_guest_port : ℕ
  pub docker_port_relay_pid : ℕ
  pub docker_port_relay_ready : Bool
  pub docker_port_relay_log_path : Bytes
  pub docker_published_ports : List Bytes
  pub docker_network_backend : Bytes
  pub docker_network_backend_pid : ℕ
  pub docker_network_socket_path : Bytes
  pub docker_network_backend_log_path : Bytes
  pub docker_tap_name : Bytes
  pub docker_guest_mac : Bytes
  pub host_share_path : Bytes
  pub host_share_ready : Bool
  pub host_share_last_error : Bytes
  pub host_share_mount_socket_path : Bytes
  pub host_share_guest_port : ℕ
  pub host_share_virtio_fs_pid : ℕ
  pub host_share_virtio_fs_socket_path : Bytes
  pub host_share_virtio_fs_log_path : Bytes
  pub kubernetes_ready : Bool
  pub kubernetes_last_error : Bytes
  pub kubernetes_kubeconfig_path : Bytes
  pub kubernetes_context : Bytes
  pub kubernetes_api_server_url : Bytes
  pub kubernetes_api_server_port : ℕ
  pub kubernetes_api_server_target_port : ℕ
  pub kubernetes_relay_pid : ℕ
  pub kubernetes_relay_log_path : Bytes
  pub registry_ready : Bool
  pub registry_last_error : Bytes
  pub registry_url : Bytes
  pub registry_port : ℕ
  pub registry_target_port : ℕ
  pub registry_relay_pid : ℕ
  pub registry_relay_log_path : Bytes
  pub registry_host_from_cluster : Bytes
  pub registry_local_hosting_updated : Bool
  pub started_at : ℕ
  pub last_start_duration_ms : ℕ
  pub updated_at : ℕ

-- `State{}`
abbrev pub empty_state : VmState
empty_state = record {
  status = [];
  backend = [];
  pid = 0;
  exec_socket_path = [];
  control_socket_path = [];
  exec_port = 0;
  cloud_hypervisor_api_socket_path = [];
  cloud_hypervisor_vsock_socket_path = [];
  guest_cid = 0;
  serial_log_path = [];
  vmm_log_path = [];
  event_log_path = [];
  exec_ready = false;
  docker_socket_path = [];
  docker_endpoint_uri = [];
  docker_relay_pid = 0;
  docker_guest_port = 0;
  docker_api_ready = false;
  docker_available = false;
  docker_last_error = [];
  docker_log_path = [];
  docker_network_ready = false;
  docker_network_last_error = [];
  docker_guest_ip_address = [];
  docker_default_route_ready = false;
  docker_dns_ready = false;
  docker_bridge_ready = false;
  docker_pull_ready = false;
  docker_tcp_forward_socket_path = [];
  docker_tcp_forward_guest_port = 0;
  docker_port_relay_pid = 0;
  docker_port_relay_ready = false;
  docker_port_relay_log_path = [];
  docker_published_ports = [];
  docker_network_backend = [];
  docker_network_backend_pid = 0;
  docker_network_socket_path = [];
  docker_network_backend_log_path = [];
  docker_tap_name = [];
  docker_guest_mac = [];
  host_share_path = [];
  host_share_ready = false;
  host_share_last_error = [];
  host_share_mount_socket_path = [];
  host_share_guest_port = 0;
  host_share_virtio_fs_pid = 0;
  host_share_virtio_fs_socket_path = [];
  host_share_virtio_fs_log_path = [];
  kubernetes_ready = false;
  kubernetes_last_error = [];
  kubernetes_kubeconfig_path = [];
  kubernetes_context = [];
  kubernetes_api_server_url = [];
  kubernetes_api_server_port = 0;
  kubernetes_api_server_target_port = 0;
  kubernetes_relay_pid = 0;
  kubernetes_relay_log_path = [];
  registry_ready = false;
  registry_last_error = [];
  registry_url = [];
  registry_port = 0;
  registry_target_port = 0;
  registry_relay_pid = 0;
  registry_relay_log_path = [];
  registry_host_from_cluster = [];
  registry_local_hosting_updated = false;
  started_at = 0;
  last_start_duration_ms = 0;
  updated_at = 0;
}
