-- ===== src/Vm/Reported/Ready.antt =====
-- What the report of a VM means, without the code's own tests.
use spind.Prelude.{
  ap, [], ℕ, ◌==◌, ◌<◌, ◌≢◌, ◌⊎◌, ◌∙◌, ◌∷◌, refl, Bool, Bool-cases, Bytes, arith, codes, false, inl,
  inr, is_empty, not, ok, str_eq, str_eq_iff, sym, true, ◌&&◌, ◌↔◌, ◌≡◌,
}
use mathlib.Core.Logic.Iff
use spind.Text.Words.{contains}
use spind.Snapshot.{cloud_hypervisor, virtualization_framework}
use spind.Vm.{or_else, VmMetadata, readable, hydrate_vm_metadata}
use spind.Vm.State.{VmState}
use spind.Vm.Info.{VmInfo}
use spind.Vm.Status.{
  Host, KillResult, delivered, no_process, not_permitted, kill_failed, is_alive, process_alive,
  is_docker_host_image, is_running, live_status, info_of, vm_status, port_relay_ready,
}
use spind.Vm.Reported.{running, ready, shares_host, vm_status-info_of, vm_status-tests}

-- a process that takes a signal, or that another user's is
abbrev pub IsThere : Host → ℕ → Type 0
IsThere host pid = (0 < pid) × ((host.probe pid ≡ delivered) ⊎ (host.probe pid ≡ not_permitted))

alive_to : (r : KillResult) → is_alive r ≡ true → (r ≡ delivered) ⊎ (r ≡ not_permitted)
alive_to delivered h = inl refl
alive_to no_process h = cc h
alive_to not_permitted h = inr refl
alive_to kill_failed h = cc h

alive_from : (r : KillResult) → (r ≡ delivered) ⊎ (r ≡ not_permitted) → is_alive r ≡ true
alive_from r (inl e) = rw e refl
alive_from r (inr e) = rw e refl

IsThere-iff : (host : Host) (pid : ℕ) → (process_alive host.probe pid ≡ true) ↔ IsThere host pid
unfolding process_alive
IsThere-iff host pid = elim (Bool-cases (pid == 0)) [
  | inl e ↦ (λ h. cc (rw e at h), λ h. let positive = h.0 in ground (arith, e, positive))
  | inr e ↦ (
    λ h. (ground (arith, e), alive_to (host.probe pid) (rw e at h)),
    λ h. rw e (alive_from (host.probe pid) h.1),
  )
]

both_iff : (a b : Bool) → ((a && b) ≡ true) ↔ ((a ≡ true) × (b ≡ true))
both_iff a b = ground arith

running_iff :
    (host : Host) (state : VmState)
    → (is_running host.probe state ≡ true) ↔ ((state.status ≡ running) × IsThere host state.pid)
unfolding is_running
running_iff host state =
    let (there_to, there_from) = IsThere-iff host state.pid in
    let (eq_to, eq_from) = str_eq_iff state.status running in
    (
      λ h.
          let named : str_eq state.status running ≡ true = ground (arith, h) in
          let alive : process_alive host.probe state.pid ≡ true = ground (arith, h) in
          (eq_to named, there_to alive),
      λ h.
          let named = eq_from h.0 in
          let alive = there_from h.1 in
          let positive = h.1.0 in ground (arith, named, alive, positive),
    )

relay_iff :
    (host : Host) (state : VmState)
    → (port_relay_ready host state ≡ true)
      ↔ ((state.docker_port_relay_ready ≡ true) × IsThere host state.docker_port_relay_pid)
unfolding port_relay_ready
relay_iff host state =
    let (there_to, there_from) = IsThere-iff host state.docker_port_relay_pid in
    (
      λ h.
          let on : state.docker_port_relay_ready ≡ true = ground (arith, h) in
          let alive : process_alive host.probe state.docker_port_relay_pid ≡ true =
            ground (arith, h) in
          (on, there_to alive),
      λ h.
          let on = h.0 in
          let alive = there_from h.1 in let positive = h.1.0 in ground (arith, on, alive, positive),
    )

is_empty_iff : (s : Bytes) → (not (is_empty s) ≡ true) ↔ (s ≢ [])
unfolding is_empty
is_empty_iff [] = (λ h. cc h, λ h. absurd (h refl))
is_empty_iff (c ∷ cs) = (λ h e. cc e, λ h. refl)

-- an image for Docker has it in its name
abbrev pub IsForDocker : VmMetadata → Type 0
IsForDocker metadata = contains (codes "docker") metadata.image ≡ true

-- what each capability that is reported as ready stands for
pub record IsReported (host : Host) (metadata : VmMetadata) (state : VmState) (info : VmInfo)
    : Type 0 where
  pub runs : (info.status ≡ running) ↔ ((state.status ≡ running) × IsThere host state.pid)
  pub stale : state.status ≡ running → ¬ IsThere host state.pid → info.status ≡ codes "stopped"
  pub api : (info.docker_api_status ≡ ready) ↔ (
      IsForDocker metadata
      × (state.docker_available ≡ true)
      × (state.docker_api_ready ≡ true)
      × (state.docker_socket_path ≢ []))
  pub network :
      (info.docker_network_status ≡ ready)
      ↔ (IsForDocker metadata × (state.docker_network_ready ≡ true))
  pub port_relay : (info.docker_port_relay_status ≡ ready) ↔ (
      IsForDocker metadata
      × (state.docker_port_relay_ready ≡ true)
      × IsThere host state.docker_port_relay_pid)
  pub host_share : (info.host_share_status ≡ ready) ↔ (
      IsForDocker metadata
      × (metadata.backend ≡ codes "cloud-hypervisor" → metadata.from_snapshot ≡ false)
      × (state.host_share_ready ≡ true))
  pub kubernetes :
      (info.kubernetes_status ≡ ready)
      ↔ ((metadata.kind_ready ≡ true) × (state.kubernetes_ready ≡ true))

backend_same :
    (backend : Bytes)
    → str_eq (or_else backend virtualization_framework) cloud_hypervisor
      ≡ str_eq backend cloud_hypervisor
unfolding str_eq is_empty
backend_same [] = refl
backend_same (c ∷ cs) = refl

shares_iff :
    (docker snapshot ready : Bool) (backend : Bytes)
    → (((docker && not (str_eq backend cloud_hypervisor && snapshot)) && ready) ≡ true)
      ↔ ((docker ≡ true) × (backend ≡ cloud_hypervisor → snapshot ≡ false) × (ready ≡ true))
shares_iff docker snapshot ready backend =
    let (eq_to, eq_from) = str_eq_iff backend cloud_hypervisor in
    (
      λ h. (
        ground (arith, h),
        λ e. let same = eq_from e in ground (arith, h, same),
        ground (arith, h),
      ),
      λ (d, share, r). elim (Bool-cases (str_eq backend cloud_hypervisor)) [
        | inl e ↦ let none_taken = share (eq_to e) in ground (arith, d, r, none_taken)
        | inr e ↦ ground (arith, d, r, e)
      ],
    )

stale_status :
    (host : Host) (state : VmState)
    → state.status ≡ running
    → ¬ IsThere host state.pid
    → live_status host state ≡ codes "stopped"
unfolding live_status
stale_status host state named gone = elim (Bool-cases (process_alive host.probe state.pid)) [
  | inl e ↦ absurd (gone ((IsThere-iff host state.pid).0 e))
  | inr e ↦ let same = (str_eq_iff state.status running).1 named in rw (same, e) (ground arith)
]

api_iff :
    (docker available ready : Bool) (path : Bytes)
    → ((docker && (available && ready && not (is_empty path))) ≡ true)
      ↔ ((docker ≡ true) × (available ≡ true) × (ready ≡ true) × (path ≢ []))
api_iff docker available ready path =
    let (to, from) = is_empty_iff path in
    (
      λ h.
          let full : not (is_empty path) ≡ true = ground (arith, h) in
          (ground (arith, h), ground (arith, h), ground (arith, h), to full),
      λ (d, a, r, p). let full = from p in ground (arith, d, a, r, full),
    )

relay_status_iff :
    (host : Host) (metadata : VmMetadata) (state : VmState)
    → ((is_docker_host_image metadata && port_relay_ready host state) ≡ true) ↔ (
        IsForDocker metadata
        × (state.docker_port_relay_ready ≡ true)
        × IsThere host state.docker_port_relay_pid)
relay_status_iff host metadata state =
    let (to, from) = relay_iff host state in
    let (split, join_up) = both_iff (is_docker_host_image metadata) (port_relay_ready host state) in
    (
      λ h. let (d, r) = split h in let (on, there) = to r in (d, on, there),
      λ (d, on, there). join_up (d, from (on, there)),
    )

share_status_iff :
    (host : Host) (metadata : VmMetadata) (state : VmState)
    → ((shares_host (hydrate_vm_metadata host.goarch metadata) && state.host_share_ready) ≡ true)
      ↔ (IsForDocker metadata
          × (metadata.backend ≡ codes "cloud-hypervisor" → metadata.from_snapshot ≡ false)
          × (state.host_share_ready ≡ true))
unfolding hydrate_vm_metadata
share_status_iff host metadata state = rw (backend_same metadata.backend) (
    shares_iff (is_docker_host_image metadata) metadata.from_snapshot state.host_share_ready
      metadata.backend)

-- Where the status of a VM can be reported: it is `running` exactly if the state says so and its
-- process is there, and `stopped` if the state says running and the process is not; and of the
-- capabilities, exactly these are `ready`: the Docker API, if the image is one of Docker and the state
-- has an API that answers and its socket; the Docker network, if the image is one of Docker and it is
-- up; published ports, if the image is one of Docker, the relay is ready and its process is there; the
-- host share, if the image is one of Docker, the VM is not restored from a snapshot on Cloud Hypervisor
-- and it is mounted; and Kubernetes, if the VM is made for it and it answers.
pub vm_status-IsReported :
    (host : Host) (vm_store name : Bytes) (metadata : VmMetadata) (state : VmState) (info : VmInfo)
    → vm_status host vm_store name (readable metadata) (readable state) ≡ ok info
    → IsReported host metadata state info
unfolding info_of
vm_status-IsReported host vm_store name metadata state info h =
    let (runs, api, network, port_relay, share, kubernetes) =
      vm_status-tests host vm_store name metadata state info h in
    let same = vm_status-info_of host vm_store name metadata state h in
    record {
      runs = Iff.trans runs (running_iff host state);
      stale = λ named gone. sym (ap (λ t. t.status) same) ∙ stale_status host state named gone;
      api = Iff.trans api (
          api_iff (is_docker_host_image metadata) state.docker_available state.docker_api_ready
            state.docker_socket_path);
      network =
          Iff.trans network (both_iff (is_docker_host_image metadata) state.docker_network_ready);
      port_relay = Iff.trans port_relay (relay_status_iff host metadata state);
      host_share = Iff.trans share (share_status_iff host metadata state);
      kubernetes = Iff.trans kubernetes (both_iff metadata.kind_ready state.kubernetes_ready);
    }
