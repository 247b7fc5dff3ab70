-- ===== src/Vm/Cleanup.antt =====
-- The cleanups of internal/spind/vm/start behind a VM: the host share (host_share.go), Docker
-- (docker_host.go, cloud_hypervisor.go) and Kubernetes (kind_ready.go). What the manager asks of the
-- host is a parameter, the `Machine`: a request to a socket, a command and the removal of a file,
-- whose errors the code drops, are steps of `W`.
use spind.Prelude.{
  Bool, Bytes, List, Result, [], codes, err, if◌then◌else◌, is_empty, not, ok, str_eq, ℕ, ◌&&◌,
  ◌==◌, ◌∷◌,
}
use spind.Snapshot.{join, cloud_hypervisor}
use spind.Vm.State.{VmState}
use spind.Vm.Status.{process_alive}
use spind.Vm.Process.{Kernel, Signal, sigterm, sigkill, ProcessError, signal_process, wait_for_exit}

pub record Machine (W : Type 0) : Type 0 where
  pub kernel : Kernel W
  pub remove : Bytes → W → W
  -- which of the files of a VM's directory are left
  pub files_left : W → List Bytes → List Bytes
  pub unmount_vsock : Bytes → ℕ → Bytes → W → W
  pub unmount : Bytes → Bytes → W → W
  pub vmm_request : Bytes → Bytes → W → W
  pub network_command : List Bytes → W → W
  pub run_runner : List Bytes → W → Bool × W
  pub write_fails : W → Bool

module _ {W : Type 0} (machine : Machine W) where
  abbrev pub alive : W → ℕ → Bool
  alive w pid = process_alive (machine.kernel.probe w) pid

  abbrev pub signal : ℕ → Signal → W → W
  signal pid sign w = (signal_process machine.kernel pid sign w).1

  abbrev pub wait : ℕ → ℕ → W → W
  wait pid timeout w = (wait_for_exit machine.kernel pid timeout w).1

  unfoldable pub remove_if_named : Bytes → W → W
  remove_if_named path w = if is_empty path then w else machine.remove path w

  -- `SIGTERM` and a wait, for a process that is there
  unfoldable pub end_relay : ℕ → W → W
  end_relay pid w =
      if not (pid == 0) && alive w pid then wait pid 2000 (signal pid sigterm w) else w

  -- `SIGTERM`, and `SIGKILL` where the process does not exit
  unfoldable pub end_process : ℕ → ℕ → W → Result ProcessError (Unit {0}) × W
  end_process pid timeout w =
      let (first, w1) = wait_for_exit machine.kernel pid timeout w in
      let (second, w2) = wait_for_exit machine.kernel pid timeout (signal pid sigkill w1) in
      elim first [
        | ok _ ↦ (ok tt, w1)
        | err e ↦ elim second [ ok _ ↦ (ok tt, w2) | err _ ↦ (err e, w2) ]
      ]

  unfoldable pub unmount_host_share : VmState → W → W
  unmount_host_share state w =
      if is_empty state.host_share_path
      then w
      else if str_eq state.backend cloud_hypervisor
      then (if not (is_empty state.cloud_hypervisor_vsock_socket_path)
            && not (state.host_share_guest_port == 0)
          then machine.unmount_vsock state.cloud_hypervisor_vsock_socket_path
              state.host_share_guest_port state.host_share_path w
          else w)
      else if is_empty state.host_share_mount_socket_path
      then w
      else machine.unmount state.host_share_mount_socket_path state.host_share_path w

  unfoldable pub cleanup_host_share_artifacts : VmState → W → W
  cleanup_host_share_artifacts state w =
      let w1 = remove_if_named state.host_share_mount_socket_path w in
      let pid = state.host_share_virtio_fs_pid in
      let w2 = if pid == 0 then w1 else (end_process pid 3000 (signal pid sigterm w1)).1 in
      remove_if_named state.host_share_virtio_fs_socket_path w2

  abbrev pub cleanup_host_share : VmState → W → W
  cleanup_host_share state w = cleanup_host_share_artifacts state (unmount_host_share state w)

  unfoldable pub cleanup_docker_endpoint : VmState → W → W
  cleanup_docker_endpoint state w =
      let w1 = end_relay state.docker_port_relay_pid w in
      let w2 =
        if state.docker_relay_pid == state.pid then w1 else end_relay state.docker_relay_pid w1 in
      remove_if_named state.docker_tcp_forward_socket_path
        (remove_if_named state.docker_socket_path w2)

  unfoldable pub cleanup_docker_endpoint_for_vm : Bytes → VmState → W → W
  cleanup_docker_endpoint_for_vm vm_dir state w =
      let w1 = cleanup_docker_endpoint state w in
      let w2 =
        if is_empty state.docker_socket_path
        then machine.remove (join vm_dir (codes "docker.sock")) w1
        else w1 in
      if is_empty state.docker_tcp_forward_socket_path
      then machine.remove (join vm_dir (codes "tcp-forward.sock")) w2
      else w2

  unfoldable pub cleanup_kubernetes_endpoint : VmState → W → W
  cleanup_kubernetes_endpoint state w =
      end_relay state.registry_relay_pid (end_relay state.kubernetes_relay_pid w)

  unfoldable pub cleanup_cloud_hypervisor_docker_network : VmState → W → W
  cleanup_cloud_hypervisor_docker_network state w =
      let pid = state.docker_network_backend_pid in
      let w1 =
        if not (pid == 0) && alive w pid
        then (end_process pid 3000 (signal pid sigterm w)).1
        else w in
      let w2 = remove_if_named state.docker_network_socket_path w1 in
      if is_empty state.docker_tap_name
      then w2
      else machine.network_command
          (codes "ip" ∷ codes "link" ∷ codes "delete" ∷ state.docker_tap_name ∷ []) w2

  unfoldable pub cleanup_endpoints : Bytes → VmState → W → W
  cleanup_endpoints vm_dir state w =
      cleanup_kubernetes_endpoint state (cleanup_docker_endpoint_for_vm vm_dir state w)
