-- ===== src/Kind.antt =====
-- internal/spind/kind/ready_snapshot.go: the ports of the Kubernetes API that containers publish,
-- the check of a kubeconfig against them, and the kubeconfig that is generated for a VM.
use spind.Prelude.{
  Bool, Bytes, List, Option, Result, [], codes, drop, err, false, guard, if◌then◌else◌, is_empty,
  leb, length, none, not, some, str_eq, ℕ, ◌&&◌, ◌++◌, ◌-◌, ◌==◌, ◌||◌, ◌∷◌, ◌>>◌,
}
use spind.Text.Words.{to_lower}
use spind.Docker.{PortMapping, ContainerSummary, has, insert}
use spind.Kubeconfig.{Cluster, User, Context, Document}
pub mod Generated
pub mod Published

-- `labels[key]`
unfoldable pub label : Bytes → List (Bytes × Bytes) → Bytes
label key [] = []
label key ((k, v) ∷ labels) = if str_eq k key then v else label key labels

-- `strings.TrimPrefix(name, "/")`
abbrev pub trim_slash : Bytes → Bytes
trim_slash [] = []
trim_slash (c ∷ cs) = if c == b'/' then cs else c ∷ cs

abbrev pub has_suffix : Bytes → Bytes → Bool
has_suffix name suffix =
    leb (length suffix) (length name) && str_eq (drop (length name - length suffix) name) suffix

unfoldable pub names_control_plane : List Bytes → Bool
names_control_plane [] = false
names_control_plane (name ∷ names) =
    has_suffix (trim_slash name) (codes "-control-plane") || names_control_plane names

unfoldable pub is_control_plane_container : ContainerSummary → Bool
is_control_plane_container container =
    str_eq (label (codes "io.x-k8s.kind.role") container.labels) (codes "control-plane")
    || names_control_plane container.names

unfoldable pub is_api_server_container : Bytes → ContainerSummary → Bool
is_api_server_container distribution container =
    if str_eq distribution (codes "kind")
    then is_control_plane_container container
    else if str_eq distribution (codes "k3d")
    then str_eq (label (codes "k3d.role") container.labels) (codes "loadbalancer")
    else false

unfoldable pub is_api_port : PortMapping → Bool
is_api_port port = not (
    not (port.private_port == 6443)
    || port.public_port == 0
    || not (str_eq (to_lower port.port_type) (codes "tcp")))

unfoldable pub api_ports_of : List PortMapping → List ℕ → List ℕ
api_ports_of [] seen = seen
api_ports_of (x ∷ xs) seen =
    api_ports_of xs (if is_api_port x then insert x.public_port seen else seen)

unfoldable pub api_ports_from : Bytes → List ContainerSummary → List ℕ → List ℕ
api_ports_from distribution [] seen = seen
api_ports_from distribution (x ∷ xs) seen =
    api_ports_from distribution xs
      (if is_api_server_container distribution x then api_ports_of x.ports seen else seen)

unfoldable pub api_server_published_ports_from_containers : List ContainerSummary → Bytes → List ℕ
api_server_published_ports_from_containers containers distribution =
    api_ports_from distribution containers []

pub data ServerError : Type 0 where
  unparsed_server no_host not_loopback no_published_port wrong_port : ServerError

-- the letter U+017F, which `strings.EqualFold` takes for an s
unfoldable pub fold_long_s : Bytes → Bytes
fold_long_s [] = []
fold_long_s (c ∷ []) = c ∷ []
fold_long_s (c ∷ d ∷ cs) =
    let pair = fold_long_s cs in
    let rest = fold_long_s (d ∷ cs) in if c == 197 && d == 191 then b's' ∷ pair else c ∷ rest

-- `ip_is_loopback` is what `net.ParseIP` and `IsLoopback` say of a host.
unfoldable pub is_loopback_host : (Bytes → Bool) → Bytes → Bool
is_loopback_host ip_is_loopback host =
    str_eq (to_lower (fold_long_s host)) (codes "localhost") || ip_is_loopback host

abbrev pub is_accepted_server_host : (Bytes → Bool) → Bytes → Bytes → Bool
is_accepted_server_host ip_is_loopback distribution host =
    str_eq distribution (codes "k3d") && str_eq host (codes "0.0.0.0")
    || is_loopback_host ip_is_loopback host

-- `hostname` is what `url.Parse` finds in the server.
unfoldable pub validate_server_published_port :
    (Bytes → Bool) → Bytes → Option Bytes → ℕ → List ℕ → Result ServerError (Unit {0})
validate_server_published_port ip_is_loopback distribution none server_port published_ports =
    err unparsed_server
validate_server_published_port ip_is_loopback distribution (some host) server_port published_ports =
    do
      guard (not (is_empty host)) no_host
      guard (is_accepted_server_host ip_is_loopback distribution host) not_loopback
      guard (not (length published_ports == 0)) no_published_port
      guard (has server_port published_ports) wrong_port

module _ {V : Type 0} where
  -- the document of a template that has a cluster, a user and a context
  abbrev pub generated : Document V → Cluster V → User V → Context V → Bytes → Bytes → Document V
  generated doc cluster user context name server_url = record doc {
    clusters = record cluster { name = name; server = server_url } ∷ [];
    users = record user { name = name } ∷ [];
    contexts = record context { name = name; cluster = name; user = name } ∷ [];
    current_context = name;
  }

  abbrev pub generate_from :
      Document V
      → List (Cluster V)
      → List (User V)
      → List (Context V)
      → Bytes
      → Bytes
      → Option (Document V)
  generate_from doc (c ∷ cs) (u ∷ us) (x ∷ xs) name server_url =
      some (generated doc c u x name server_url)
  generate_from doc _ _ _ name server_url = none

  -- the document that `GenerateKubeconfig` writes; `none` is an incomplete template
  unfoldable pub generate_kubeconfig : Document V → Bytes → Bytes → Option (Document V)
  generate_kubeconfig doc vm_name server_url =
      generate_from doc doc.clusters doc.users doc.contexts (codes "spind-" ++ vm_name) server_url
