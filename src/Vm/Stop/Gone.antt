-- ===== src/Vm/Stop/Gone.antt =====
-- A process that is gone stays gone through a stop.
use spind.Prelude.{
  Bool, Bool-cases, Bytes, List, Result-cases, arith, codes, false, if◌then◌else◌, inl, inr,
  is_empty, not, suc, true, zero, ℕ, ◌&&◌, ◌+◌, ◌==◌, ◌≡◌,
}
use spind.Snapshot.{join}
use spind.Vm.State.{VmState}
use spind.Vm.Process.{Signal, sigterm, sigkill, wait_until, wait_for_exit, signal_process}
use spind.Vm.Process.Exit.{Reaps, wait_until_cases}
use spind.Vm.Cleanup.{
  Machine, alive, remove_if_named, end_relay, end_process, unmount_host_share,
  cleanup_host_share_artifacts, signal, cleanup_docker_endpoint, cleanup_docker_endpoint_for_vm,
  cleanup_kubernetes_endpoint, cleanup_endpoints, cleanup_cloud_hypervisor_docker_network,
}

-- A step of the host after which no process that was gone is there: no id of an old process is given
-- to a new one.
pub record Keeps {W : Type 0} (machine : Machine W) (step : W → W) : Type 0 where
  pub gone : (pid : ℕ) (w : W) → alive machine w pid ≡ false → alive machine (step w) pid ≡ false

-- The calls of the host give no process id of an old process to a new one.
pub record NoReuse {W : Type 0} (machine : Machine W) : Type 0 where
  pub reaps : Reaps machine.kernel
  pub kill_keeps :
      (pid : ℕ) (sign : Signal) → Keeps machine (λ w. (machine.kernel.kill pid sign w).1)
  pub wait4_keeps : (pid : ℕ) → Keeps machine (λ w. (machine.kernel.wait4 pid w).1)
  pub sleep_keeps : (t : ℕ) → Keeps machine (machine.kernel.sleep t)
  pub remove_keeps : (path : Bytes) → Keeps machine (machine.remove path)
  pub network_command_keeps : (args : List Bytes) → Keeps machine (machine.network_command args)
  pub unmount_vsock_keeps :
      (socket : Bytes) (port : ℕ) (path : Bytes)
      → Keeps machine (machine.unmount_vsock socket port path)
  pub unmount_keeps : (socket path : Bytes) → Keeps machine (machine.unmount socket path)

module _ {W : Type 0} (machine : Machine W) (laws : NoReuse machine) where
  wait_until_keeps :
      (fuel p deadline pid : ℕ) (w : W)
      → alive machine w pid ≡ false
      → alive machine (wait_until machine.kernel fuel p deadline w).1 pid ≡ false
  unfolding wait_until
  wait_until_keeps zero p deadline pid w h = h
  wait_until_keeps (suc fuel) p deadline pid w h =
      let waited = (laws.wait4_keeps p).gone pid w h in
      elim (wait_until_cases machine.kernel fuel p deadline w) [
        | inl (_, e) ↦ rw e h
        | inr (inl e) ↦ rw e waited
        | inr (inr (inl (_, e))) ↦ rw e waited
        | inr (inr (inr (_, e))) ↦
            rw e (wait_until_keeps fuel p deadline pid _ ((laws.sleep_keeps 100).gone pid _ waited))
      ]

  pub wait-Keeps :
      (p timeout : ℕ) → Keeps machine (λ w. (wait_for_exit machine.kernel p timeout w).1)
  unfolding wait_for_exit
  wait-Keeps p timeout = record {
    gone = λ pid w h. wait_until_keeps (suc timeout) p (machine.kernel.now w + timeout) pid w h;
  }

  pub signal-Keeps :
      (p : ℕ) (sign : Signal) → Keeps machine (λ w. (signal_process machine.kernel p sign w).1)
  unfolding signal_process
  signal-Keeps p sign = record {
    gone = λ pid w h. elim (Bool-cases (p == 0)) [
      | inl e ↦ rw e h
      | inr e ↦ rw e ((laws.kill_keeps p sign).gone pid w h)
    ];
  }

  module _ (pid : ℕ) where
    abbrev pub Gone : W → Type 0
    Gone w = alive machine w pid ≡ false

    remove_if_named-Gone : (path : Bytes) (w : W) → Gone w → Gone (remove_if_named machine path w)
    unfolding remove_if_named
    remove_if_named-Gone path w h = elim (Bool-cases (is_empty path)) [
      | inl e ↦ rw e h
      | inr e ↦ rw e ((laws.remove_keeps path).gone pid w h)
    ]

    end_relay-Gone : (p : ℕ) (w : W) → Gone w → Gone (end_relay machine p w)
    unfolding end_relay
    end_relay-Gone p w h = elim (Bool-cases (not (p == 0) && alive machine w p)) [
      | inl e ↦ rw e ((wait-Keeps p 2000).gone pid _ ((signal-Keeps p sigterm).gone pid w h))
      | inr e ↦ rw e h
    ]

    pub end_process-Gone :
        (p timeout : ℕ) (w : W) → Gone w → Gone (end_process machine p timeout w).1
    unfolding end_process
    end_process-Gone p timeout w h =
        let first = wait_for_exit machine.kernel p timeout w in
        let h1 = (wait-Keeps p timeout).gone pid w h in
        let h2 = (wait-Keeps p timeout).gone pid _ ((signal-Keeps p sigkill).gone pid _ h1) in
        elim (Result-cases first.0) [
          | inl (_, e) ↦ rw (end_process, e) h1
          | inr (_, e) ↦
              elim (Result-cases
                (wait_for_exit machine.kernel p timeout
                  (signal_process machine.kernel p sigkill first.1).1).0) [
                    | inl (_, e') ↦ rw (end_process, e, e') h2
                    | inr (_, e') ↦ rw (end_process, e, e') h2
                  ]
        ]

    pub unmount_host_share-Gone :
        (state : VmState) (w : W) → Gone w → Gone (unmount_host_share machine state w)
    unfolding unmount_host_share
    unmount_host_share-Gone state w h =
        let vsock =
          (laws.unmount_vsock_keeps state.cloud_hypervisor_vsock_socket_path
              state.host_share_guest_port state.host_share_path).gone
            pid w h in
        let socket =
          (laws.unmount_keeps state.host_share_mount_socket_path state.host_share_path).gone pid w
            h in
        ground arith

    pub cleanup_host_share_artifacts-Gone :
        (state : VmState) (w : W) → Gone w → Gone (cleanup_host_share_artifacts machine state w)
    unfolding cleanup_host_share_artifacts
    cleanup_host_share_artifacts-Gone state w h =
        let p = state.host_share_virtio_fs_pid in
        let h1 = remove_if_named-Gone state.host_share_mount_socket_path w h in
        remove_if_named-Gone state.host_share_virtio_fs_socket_path _ (elim (Bool-cases (p == 0)) [
          | inl e ↦ rw e h1
          | inr e ↦ rw e (end_process-Gone p 3000 _ ((signal-Keeps p sigterm).gone pid _ h1))
        ])

    cleanup_docker_endpoint-Gone :
        (state : VmState) (w : W) → Gone w → Gone (cleanup_docker_endpoint machine state w)
    unfolding cleanup_docker_endpoint
    cleanup_docker_endpoint-Gone state w h =
        let h1 = end_relay-Gone state.docker_port_relay_pid w h in
        remove_if_named-Gone state.docker_tcp_forward_socket_path _ (
          remove_if_named-Gone state.docker_socket_path _
            (elim (Bool-cases (state.docker_relay_pid == state.pid)) [
              | inl e ↦ rw e h1
              | inr e ↦ rw e (end_relay-Gone state.docker_relay_pid _ h1)
            ]))

    remove_when-Gone :
        (test : Bool) (path : Bytes) (w : W)
        → Gone w
        → Gone (if test then machine.remove path w else w)
    remove_when-Gone true path w h = (laws.remove_keeps path).gone pid w h
    remove_when-Gone false path w h = h

    cleanup_docker_endpoint_for_vm-Gone :
        (vm_dir : Bytes) (state : VmState) (w : W)
        → Gone w
        → Gone (cleanup_docker_endpoint_for_vm machine vm_dir state w)
    unfolding cleanup_docker_endpoint_for_vm
    cleanup_docker_endpoint_for_vm-Gone vm_dir state w h =
        let h1 = cleanup_docker_endpoint-Gone state w h in
        remove_when-Gone (is_empty state.docker_tcp_forward_socket_path)
          (join vm_dir (codes "tcp-forward.sock")) _
          (remove_when-Gone (is_empty state.docker_socket_path) (join vm_dir (codes "docker.sock"))
            _ h1)

    pub cleanup_endpoints-Gone :
        (vm_dir : Bytes) (state : VmState) (w : W)
        → Gone w
        → Gone (cleanup_endpoints machine vm_dir state w)
    unfolding cleanup_endpoints cleanup_kubernetes_endpoint
    cleanup_endpoints-Gone vm_dir state w h = end_relay-Gone state.registry_relay_pid _ (
        end_relay-Gone state.kubernetes_relay_pid _
          (cleanup_docker_endpoint_for_vm-Gone vm_dir state w h))

    pub cleanup_network-Gone :
        (state : VmState) (w : W)
        → Gone w
        → Gone (cleanup_cloud_hypervisor_docker_network machine state w)
    unfolding cleanup_cloud_hypervisor_docker_network
    cleanup_network-Gone state w h =
        let p = state.docker_network_backend_pid in
        let h1 : Gone (
            if not (p == 0) && alive machine w p
            then (end_process machine p 3000 (signal machine p sigterm w)).1
            else w) =
          elim (Bool-cases (not (p == 0) && alive machine w p)) [
            | inl e ↦ rw e (end_process-Gone p 3000 _ ((signal-Keeps p sigterm).gone pid w h))
            | inr e ↦ rw e h
          ] in
        let h2 = remove_if_named-Gone state.docker_network_socket_path _ h1 in
        elim (Bool-cases (is_empty state.docker_tap_name)) [
          | inl e ↦ rw e h2
          | inr e ↦ rw e ((laws.network_command_keeps _).gone pid _ h2)
        ]
