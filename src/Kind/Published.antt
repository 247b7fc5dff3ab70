-- ===== src/Kind/Published.antt =====
-- The check of a kubeconfig's server against the published ports of the Kubernetes API.
use spind.Prelude.{
  >>=-eq-ok, Any, codes, or_cases, str_eq, str_eq_iff, ◌<◌, Bool, Bool-cases, Bytes, List, [],
  arith, false, guard, inl, inr, is_empty, length, not, ok, refl, some, sym, true, ℕ, ◌&&◌, ◌==◌,
  ◌||◌, ◌∙◌, ◌∷◌, ◌≡◌,
}
use spind.Text.Words.{to_lower}
use spind.Docker.{PortMapping, ContainerSummary, has, insert}
use spind.Docker.Ports.{has-insert}
use spind.Kind.{
  is_api_server_container, is_control_plane_container, label, fold_long_s, is_loopback_host,
  is_api_port, api_ports_of, api_ports_from, api_server_published_ports_from_containers, no_host,
  not_loopback, no_published_port, wrong_port, is_accepted_server_host,
  validate_server_published_port,
}

-- a mapping of TCP, in any case of its letters, from the port 6443 of the container to the port of
-- the host
pub record PublishesApi (p : ℕ) (port : PortMapping) : Type 0 where
  pub is_tcp : to_lower port.port_type ≡ codes "tcp"
  pub of_api : port.private_port ≡ 6443
  pub is_set : 0 < port.public_port
  pub at_port : p ≡ port.public_port

-- On kind the control plane serves the API, on k3d the load balancer.
pub data ServesApi (distribution : Bytes) (container : ContainerSummary) : Type 0 where
  by_control_plane :
      distribution ≡ codes "kind"
      → is_control_plane_container container ≡ true
      → ServesApi distribution container
  by_load_balancer :
      distribution ≡ codes "k3d"
      → label (codes "k3d.role") container.labels ≡ codes "loadbalancer"
      → ServesApi distribution container

pub data Accepts (ip_is_loopback : Bytes → Bool) (distribution host : Bytes) : Type 0 where
  on_k3d :
      distribution ≡ codes "k3d" → host ≡ codes "0.0.0.0" → Accepts ip_is_loopback distribution host
  localhost :
      to_lower (fold_long_s host) ≡ codes "localhost" → Accepts ip_is_loopback distribution host
  loopback_address : ip_is_loopback host ≡ true → Accepts ip_is_loopback distribution host

maps_api : ℕ → List PortMapping → Bool
maps_api p [] = false
maps_api p (x ∷ xs) = is_api_port x && p == x.public_port || maps_api p xs

serves_api : Bytes → ℕ → List ContainerSummary → Bool
serves_api distribution p [] = false
serves_api distribution p (x ∷ xs) =
    is_api_server_container distribution x && maps_api p x.ports || serves_api distribution p xs

has-api_ports_of :
    (p : ℕ) (xs : List PortMapping) (seen : List ℕ)
    → has p (api_ports_of xs seen) ≡ (has p seen || maps_api p xs)
unfolding api_ports_of maps_api
has-api_ports_of p [] seen = ground arith
has-api_ports_of p (x ∷ xs) seen = elim (Bool-cases (is_api_port x)) [
  | inl e ↦
      rw (e, has-api_ports_of p xs (insert x.public_port seen), has-insert p x.public_port seen)
        (ground arith)
  | inr e ↦ rw (e, has-api_ports_of p xs seen) refl
]

has-api_ports_from :
    (distribution : Bytes) (p : ℕ) (xs : List ContainerSummary) (seen : List ℕ)
    → has p (api_ports_from distribution xs seen) ≡ (has p seen || serves_api distribution p xs)
unfolding api_ports_from serves_api
has-api_ports_from distribution p [] seen = ground arith
has-api_ports_from distribution p (x ∷ xs) seen =
    elim (Bool-cases (is_api_server_container distribution x)) [
      | inl e ↦
          rw
            (
              e,
              has-api_ports_from distribution p xs (api_ports_of x.ports seen),
              has-api_ports_of p x.ports seen,
            )
            (ground arith)
      | inr e ↦ rw (e, has-api_ports_from distribution p xs seen) refl
    ]

guarded : {E : Type 0} (b : Bool) (e : E) → guard b e ≡ ok tt → b ≡ true
guarded true e h = refl
guarded false e h = cc h

valid_port :
    (ip_is_loopback : Bytes → Bool) (distribution host : Bytes) (server_port : ℕ) (ports : List ℕ)
    → validate_server_published_port ip_is_loopback distribution (some host) server_port ports
      ≡ ok tt
    → (is_accepted_server_host ip_is_loopback distribution host ≡ true)
      × (has server_port ports ≡ true)
unfolding validate_server_published_port
valid_port ip_is_loopback distribution host server_port ports h =
    let (_, _, h1) = >>=-eq-ok (guard (not (is_empty host)) no_host) _ h in
    let (_, accepted, h2) =
      >>=-eq-ok (guard (is_accepted_server_host ip_is_loopback distribution host) not_loopback) _
        h1 in
    let (_, _, h3) = >>=-eq-ok (guard (not (length ports == 0)) no_published_port) _ h2 in
    (guarded _ not_loopback accepted, guarded _ wrong_port h3)

api_port_to :
    (p : ℕ) (x : PortMapping) → (is_api_port x && p == x.public_port) ≡ true → PublishesApi p x
unfolding is_api_port
api_port_to p x h = record {
  is_tcp = (str_eq_iff (to_lower x.port_type) (codes "tcp")).0 (ground (arith, h));
  of_api = ground (arith, h);
  is_set = ground (arith, h);
  at_port = ground (arith, h);
}

maps_api-Any : (p : ℕ) (xs : List PortMapping) → maps_api p xs ≡ true → Any (PublishesApi p) xs
unfolding maps_api
maps_api-Any p [] h = cc
maps_api-Any p (x ∷ xs) h =
    elim (or_cases (is_api_port x && p == x.public_port) (maps_api p xs) h) [
      | inl e ↦ inl (api_port_to p x e)
      | inr e ↦ inr (maps_api-Any p xs e)
    ]

server_container :
    (distribution : Bytes) (x : ContainerSummary)
    → is_api_server_container distribution x ≡ true
    → ServesApi distribution x
unfolding is_api_server_container
server_container distribution x h = elim (Bool-cases (str_eq distribution (codes "kind"))) [
  | inl e ↦ by_control_plane ((str_eq_iff _ _).0 e) (rw e at h)
  | inr e ↦ elim (Bool-cases (str_eq distribution (codes "k3d"))) [
    | inl e' ↦ by_load_balancer ((str_eq_iff _ _).0 e') ((str_eq_iff _ _).0 (rw (e, e') at h))
    | inr e' ↦ cc (rw (e, e') at h)
  ]
]

both : (a b : Bool) → (a && b) ≡ true → (a ≡ true) × (b ≡ true)
both a b h = ground (arith, h)

serves_api-Any :
    (distribution : Bytes) (p : ℕ) (xs : List ContainerSummary)
    → serves_api distribution p xs ≡ true
    → Any (λ c. ServesApi distribution c × Any (PublishesApi p) c.ports) xs
unfolding serves_api
serves_api-Any distribution p [] h = cc
serves_api-Any distribution p (x ∷ xs) h =
    elim (or_cases (is_api_server_container distribution x && maps_api p x.ports)
      (serves_api distribution p xs) h) [
        | inl e ↦
            let (server, maps) = both _ _ e in
            inl (server_container distribution x server, maps_api-Any p x.ports maps)
        | inr e ↦ inr (serves_api-Any distribution p xs e)
      ]

accepted_host :
    (ip_is_loopback : Bytes → Bool) (distribution host : Bytes)
    → is_accepted_server_host ip_is_loopback distribution host ≡ true
    → Accepts ip_is_loopback distribution host
unfolding is_loopback_host
accepted_host ip_is_loopback distribution host h =
    elim (or_cases (str_eq distribution (codes "k3d") && str_eq host (codes "0.0.0.0")) _ h) [
      | inl e ↦
          let (k3d, any_address) = both _ _ e in
          on_k3d ((str_eq_iff _ _).0 k3d) ((str_eq_iff _ _).0 any_address)
      | inr e ↦ elim (or_cases (str_eq (to_lower (fold_long_s host)) (codes "localhost")) _ e) [
        | inl name ↦ localhost ((str_eq_iff _ _).0 name)
        | inr ip ↦ loopback_address ip
      ]
    ]

-- A kubeconfig is accepted for the containers of a VM only if its server's host is `localhost`, in
-- any case of its letters, or a loopback address, or on k3d 0.0.0.0; and if a container that serves
-- the API of the distribution, the control plane of kind or the load balancer of k3d, publishes its
-- TCP port 6443 at the server's port.
pub validate_server_published_port_lem :
    (ip_is_loopback : Bytes → Bool) (distribution host : Bytes) (server_port : ℕ)
    (containers : List ContainerSummary)
    → validate_server_published_port ip_is_loopback distribution
        (some host)
        server_port
        (api_server_published_ports_from_containers containers distribution)
      ≡ ok tt
    → Accepts ip_is_loopback distribution host
      × Any (λ c. ServesApi distribution c × Any (PublishesApi server_port) c.ports) containers
unfolding api_server_published_ports_from_containers has
validate_server_published_port_lem ip_is_loopback distribution host server_port containers h =
    let (accepted, published) = valid_port ip_is_loopback distribution host server_port _ h in
    let served = sym (has-api_ports_from distribution server_port containers []) ∙ published in
    (
      accepted_host ip_is_loopback distribution host accepted,
      serves_api-Any distribution server_port containers served,
    )
