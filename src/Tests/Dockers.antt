-- ===== src/Tests/Dockers.antt =====
-- A container with one published port, and the relay of it.
use spind.Prelude.{
  Any, ◌↔◌, Bool, [], arith, codes, false, refl, some, true, ℕ, ◌&&◌, ◌||◌, ◌∷◌, ◌≡◌,
}
use spind.Docker.{
  ContainerSummary, PortRelay, has, reconcile, close_all, published_ports_raw, connect_line,
  parse_connect_line,
}
use spind.Docker.Ports.{publishes, PublishesTcp, Ascending, published_ports_raw_lem}
use spind.Docker.Listeners.{Balanced, reconcile-publishes, reconcile-Balanced}
use spind.Docker.Connect.{parse_connect_line-connect_line}

abbrev web : ContainerSummary
web = record {
  names = codes "/web" ∷ [];
  labels = [];
  ports =
      record {
        ip = codes "0.0.0.0";
        private_port = 80;
        public_port = 8080;
        port_type = codes "tcp";
      }
      ∷ record {
        ip = codes "0.0.0.0";
        private_port = 53;
        public_port = 5353;
        port_type = codes "udp";
      }
      ∷ [];
}

abbrev relay : PortRelay
relay = record { listeners = 22 ∷ []; sockets = 22 ∷ [] }

abbrev binds : ℕ → Bool
binds p = true

published_ports_raw_lem_example :
    Ascending (published_ports_raw (some (web ∷ [])))
    × ((p : ℕ)
        → (has p (published_ports_raw (some (web ∷ []))) ≡ true)
          ↔ Any (λ c. Any (PublishesTcp p) c.ports) (web ∷ []))
published_ports_raw_lem_example = published_ports_raw_lem (web ∷ [])

reconcile-publishes_example :
    has 8080 (reconcile binds (published_ports_raw (some (web ∷ []))) relay).listeners
    ≡ (publishes 8080 (web ∷ []) && (has 8080 relay.listeners || binds 8080))
reconcile-publishes_example = reconcile-publishes binds (web ∷ []) relay 8080

reconcile-Balanced_example :
    Balanced (reconcile binds (8080 ∷ []) relay)
    × ((p : ℕ) → has p (close_all (reconcile binds (8080 ∷ []) relay)).sockets ≡ false)
reconcile-Balanced_example = reconcile-Balanced binds (8080 ∷ []) relay (λ p. refl)

parse_connect_line-connect_line_example :
    parse_connect_line (connect_line 8080) ≡ some (codes "127.0.0.1", 8080)
parse_connect_line-connect_line_example =
    parse_connect_line-connect_line 8080 (omega arith) (omega arith)
