-- ===== src/Tests/Kinds.antt =====
-- A template of one cluster, and the check of its server.
use spind.Prelude.{
  Any, Bool, Bytes, [], codes, false, is_empty, ok, refl, some, str_eq, true, ◌∷◌, ◌≡◌,
}
use spind.Text.Words.{to_lower, lower_from, has_prefix, lower_byte}
use spind.Docker.{ContainerSummary, has, insert}
use spind.Kubeconfig.{Document, empty_document, MergeOptions, merge_document}
use spind.Kind.{
  label, names_control_plane, is_control_plane_container, is_api_server_container, is_api_port,
  api_ports_of, api_ports_from, api_server_published_ports_from_containers, is_loopback_host,
  fold_long_s, validate_server_published_port, generate_kubeconfig,
}
use spind.Kind.Generated.{IsFor, generate_kubeconfig-IsFor}
use spind.Kind.Published.{Accepts, ServesApi, PublishesApi, validate_server_published_port_lem}

abbrev template : Document (Unit {0})
template = record empty_document {
  clusters =
      record {
        name = codes "kind";
        server = [];
        certificate_authority_data = [];
        insecure_skip_tls_verify = false;
        ref_other_fields = tt;
        other_fields = tt;
      }
      ∷ [];
  users = record { name = codes "kind"; user = tt; other_fields = tt } ∷ [];
  contexts =
      record {
        name = codes "kind";
        cluster = codes "kind";
        user = codes "kind";
        ref_other_fields = tt;
        other_fields = tt;
      }
      ∷ [];
}

abbrev url : Bytes
url = codes "https://127.0.0.1:6443"

abbrev generated : Document (Unit {0})
generated = record template {
  clusters =
      record {
        name = codes "spind-vm";
        server = url;
        certificate_authority_data = [];
        insecure_skip_tls_verify = false;
        ref_other_fields = tt;
        other_fields = tt;
      }
      ∷ [];
  users = record { name = codes "spind-vm"; user = tt; other_fields = tt } ∷ [];
  contexts =
      record {
        name = codes "spind-vm";
        cluster = codes "spind-vm";
        user = codes "spind-vm";
        ref_other_fields = tt;
        other_fields = tt;
      }
      ∷ [];
  current_context = codes "spind-vm";
}

generate_runs : generate_kubeconfig template (codes "vm") url ≡ some generated
unfolding generate_kubeconfig
generate_runs = refl

abbrev replacing : MergeOptions
replacing = record { replace = true; set_current_context = false }

generate_kubeconfig-IsFor_example :
    IsFor (codes "spind-vm") url generated
    × ((doc : Document (Unit {0})) × (merge_document replacing generated template (codes "spind-vm")
          ≡ ok doc))
generate_kubeconfig-IsFor_example =
    generate_kubeconfig-IsFor template (codes "vm") url generated replacing template generate_runs
      refl

abbrev control_plane : ContainerSummary
control_plane = record {
  names = codes "/kind-control-plane" ∷ [];
  labels = [];
  ports =
      record {
        ip = codes "127.0.0.1";
        private_port = 6443;
        public_port = 6443;
        port_type = codes "tcp";
      }
      ∷ [];
}

abbrev loopback : Bytes → Bool
loopback host = str_eq host (codes "127.0.0.1")

accepts :
    validate_server_published_port loopback
      (codes "kind")
      (some (codes "127.0.0.1"))
      6443
      (api_server_published_ports_from_containers (control_plane ∷ []) (codes "kind"))
    ≡ ok tt
unfolding validate_server_published_port api_server_published_ports_from_containers api_ports_from
    api_ports_of is_api_port is_api_server_container is_control_plane_container names_control_plane
    label insert has str_eq is_empty to_lower lower_from has_prefix lower_byte is_loopback_host
    fold_long_s
accepts = refl

validate_server_published_port_lem_example :
    Accepts loopback (codes "kind") (codes "127.0.0.1")
    × Any (λ c. ServesApi (codes "kind") c × Any (PublishesApi 6443) c.ports) (control_plane ∷ [])
validate_server_published_port_lem_example =
    validate_server_published_port_lem loopback (codes "kind") (codes "127.0.0.1") 6443
      (control_plane ∷ []) accepts
