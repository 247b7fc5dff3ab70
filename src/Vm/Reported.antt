-- ===== src/Vm/Reported.antt =====
-- What the status of a VM reports: a VM runs where its process is there, and a capability is ready
-- where the image has it and the state says so.
pub mod Ready
use spind.Prelude.{
  ap, [], ℕ, ◌==◌, ◌<◌, ◌≢◌, ◌⊎◌, ◌∙◌, ◌∷◌, refl, >>=-eq-ok, Bool, Bool-cases, Bytes, arith, codes,
  false, guard, if◌then◌else◌, inl, inr, is_empty, not, ok, str_eq, str_eq_iff, sym, true, ◌&&◌,
  ◌↔◌, ◌≡◌,
}
use mathlib.Core.Logic.Iff
use spind.Text.Words.{contains}
use spind.Snapshot.{join, cloud_hypervisor, virtualization_framework}
use spind.Name.{valid_name}
use spind.Vm.{or_else, VmMetadata, readable, hydrate_vm_metadata, invalid_name}
use spind.Vm.State.{VmState}
use spind.Vm.Info.{VmInfo}
use spind.Vm.Status.{
  Host, KillResult, delivered, no_process, not_permitted, kill_failed, is_alive, process_alive,
  is_docker_host_image, is_running, live_status, info_of, vm_status, read_metadata, read_state,
  port_relay_ready, capability_status, docker_capability_support, docker_capability_status,
  host_share_support, host_share_status, kubernetes_support, kubernetes_status,
}

abbrev pub running : Bytes
running = codes "running"

abbrev pub ready : Bytes
ready = codes "ready"

pub vm_status-info_of :
    (host : Host) (vm_store name : Bytes) (metadata : VmMetadata) (state : VmState) {info : VmInfo}
    → vm_status host vm_store name (readable metadata) (readable state) ≡ ok info
    → info_of host (join vm_store name) name (hydrate_vm_metadata host.goarch metadata) state ≡ info
unfolding vm_status read_metadata read_state
vm_status-info_of host vm_store name metadata state h =
    let (_, _, h1) = >>=-eq-ok (guard (valid_name name) invalid_name) _ h in cc h1

live_status_iff :
    (host : Host) (state : VmState)
    → (live_status host state ≡ running) ↔ (is_running host.probe state ≡ true)
unfolding live_status is_running
live_status_iff host state = ground (arith, str_eq_iff state.status running)

ready_iff :
    (supported ready_now : Bool)
    → ((if not supported then codes "not-applicable" else capability_status ready_now) ≡ ready)
      ↔ ((supported && ready_now) ≡ true)
unfolding capability_status
ready_iff supported ready_now = ground arith

docker_ready_iff :
    (metadata : VmMetadata) (ready_now : Bool)
    → (docker_capability_status metadata ready_now ≡ ready)
      ↔ ((is_docker_host_image metadata && ready_now) ≡ true)
unfolding docker_capability_status docker_capability_support str_eq
docker_ready_iff metadata ready_now = elim (Bool-cases (is_docker_host_image metadata)) [
  | inl e ↦ rw e (ready_iff true ready_now)
  | inr e ↦ rw e (ready_iff false ready_now)
]

kubernetes_ready_iff :
    (metadata : VmMetadata) (state : VmState)
    → (kubernetes_status metadata state ≡ ready)
      ↔ ((metadata.kind_ready && state.kubernetes_ready) ≡ true)
unfolding kubernetes_status kubernetes_support str_eq
kubernetes_ready_iff metadata state = elim (Bool-cases metadata.kind_ready) [
  | inl e ↦ rw e (ready_iff true state.kubernetes_ready)
  | inr e ↦ rw e (ready_iff false state.kubernetes_ready)
]

-- whether a VM can mount the directory of its host
abbrev pub shares_host : VmMetadata → Bool
shares_host metadata =
    is_docker_host_image metadata
    && not (str_eq metadata.backend cloud_hypervisor && metadata.from_snapshot)

host_share_ready_iff :
    (metadata : VmMetadata) (state : VmState)
    → (host_share_status metadata state ≡ ready)
      ↔ ((shares_host metadata && state.host_share_ready) ≡ true)
unfolding host_share_status host_share_support str_eq
host_share_ready_iff metadata state = elim (Bool-cases (is_docker_host_image metadata)) [
  | inl e ↦ elim (Bool-cases (str_eq metadata.backend cloud_hypervisor && metadata.from_snapshot)) [
    | inl e' ↦ rw (e, e') (ready_iff false state.host_share_ready)
    | inr e' ↦ rw (e, e') (ready_iff true state.host_share_ready)
  ]
  | inr e ↦ rw e (ready_iff false state.host_share_ready)
]

-- the reports as the code's own tests
pub vm_status-tests :
    (host : Host) (vm_store name : Bytes) (metadata : VmMetadata) (state : VmState) (info : VmInfo)
    → vm_status host vm_store name (readable metadata) (readable state) ≡ ok info
    → ((info.status ≡ running) ↔ (is_running host.probe state ≡ true))
      × ((info.docker_api_status ≡ ready) ↔ (
          (is_docker_host_image metadata
            && (state.docker_available
                && state.docker_api_ready
                && not (is_empty state.docker_socket_path)))
          ≡ true))
      × ((info.docker_network_status ≡ ready)
          ↔ ((is_docker_host_image metadata && state.docker_network_ready) ≡ true))
      × ((info.docker_port_relay_status ≡ ready)
          ↔ ((is_docker_host_image metadata && port_relay_ready host state) ≡ true))
      × ((info.host_share_status ≡ ready) ↔ (
          (shares_host (hydrate_vm_metadata host.goarch metadata) && state.host_share_ready)
          ≡ true))
      × ((info.kubernetes_status ≡ ready)
          ↔ ((metadata.kind_ready && state.kubernetes_ready) ≡ true))
unfolding info_of hydrate_vm_metadata
vm_status-tests host vm_store name metadata state info h =
    let hydrated = hydrate_vm_metadata host.goarch metadata in
    rw (sym (vm_status-info_of host vm_store name metadata state h)) (
      live_status_iff host state,
      docker_ready_iff hydrated _,
      docker_ready_iff hydrated _,
      docker_ready_iff hydrated _,
      host_share_ready_iff hydrated state,
      kubernetes_ready_iff hydrated state,
    )
