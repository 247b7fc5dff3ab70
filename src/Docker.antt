-- ===== src/Docker.antt =====
-- internal/spind/docker: the published ports of the containers (ports.go) and the listeners that
-- relay them (relay.go), and the line that asks the guest for a port, which
-- internal/agent/tcpforward/run.go parses.
use spind.Prelude.{
  Bool, Bytes, List, Option, [], codes, false, if◌then◌else◌, ltb, none, not, some, str_eq, ℕ, ◌&&◌,
  ◌++◌, ◌==◌, ◌||◌, ◌∷◌,
}
use spind.Text.Words.{to_lower, fields}
use spind.Text.Decimal.{itoa, Signed, plus, minus, parse_int}
pub mod Ports
pub mod Listeners
pub mod Connect

pub record PortMapping : Type 0 where
  pub ip : Bytes
  pub private_port : ℕ
  pub public_port : ℕ
  pub port_type : Bytes

pub record ContainerSummary : Type 0 where
  pub names : List Bytes
  pub labels : List (Bytes × Bytes)
  pub ports : List PortMapping

unfoldable pub has : ℕ → List ℕ → Bool
has p [] = false
has p (q ∷ qs) = p == q || has p qs

-- A port is added to the set `seen`, which is kept in order, as its keys are sorted in the end.
unfoldable pub insert : ℕ → List ℕ → List ℕ
insert p [] = p ∷ []
insert p (q ∷ qs) =
    let rest = insert p qs in if ltb p q then p ∷ q ∷ qs else if p == q then q ∷ qs else q ∷ rest

unfoldable pub is_published : PortMapping → Bool
is_published port =
    not (port.public_port == 0 || not (str_eq (to_lower port.port_type) (codes "tcp")))

unfoldable pub seen_of_ports : List PortMapping → List ℕ → List ℕ
seen_of_ports [] seen = seen
seen_of_ports (x ∷ xs) seen =
    seen_of_ports xs (if is_published x then insert x.public_port seen else seen)

unfoldable pub seen_of_containers : List ContainerSummary → List ℕ → List ℕ
seen_of_containers [] seen = seen
seen_of_containers (x ∷ xs) seen = seen_of_containers xs (seen_of_ports x.ports seen)

-- `none` is an error of the Docker API.
unfoldable pub published_ports_raw : Option (List ContainerSummary) → List ℕ
published_ports_raw none = []
published_ports_raw (some containers) = seen_of_containers containers []

-- The ports in the map of listeners, and those whose sockets are open.
pub record PortRelay : Type 0 where
  pub listeners : List ℕ
  pub sockets : List ℕ

unfoldable pub remove : ℕ → List ℕ → List ℕ
remove p [] = []
remove p (q ∷ qs) = let rest = remove p qs in if q == p then rest else q ∷ rest

-- `binds` says which ports `net.Listen` can open.
abbrev pub open_port : (ℕ → Bool) → ℕ → PortRelay → PortRelay
open_port binds p r =
    if has p r.listeners
    then r
    else if binds p
    then record { listeners = p ∷ r.listeners; sockets = p ∷ r.sockets }
    else r

unfoldable pub open_wanted : (ℕ → Bool) → List ℕ → PortRelay → PortRelay
open_wanted binds [] r = r
open_wanted binds (p ∷ ps) r = open_wanted binds ps (open_port binds p r)

abbrev pub close_port : ℕ → PortRelay → PortRelay
close_port p r = record { listeners = remove p r.listeners; sockets = remove p r.sockets }

-- the loop over the keys of the map
unfoldable pub close_unwanted : List ℕ → List ℕ → PortRelay → PortRelay
close_unwanted wanted [] r = r
close_unwanted wanted (p ∷ ps) r =
    close_unwanted wanted ps (if has p wanted then r else close_port p r)

unfoldable pub reconcile : (ℕ → Bool) → List ℕ → PortRelay → PortRelay
reconcile binds ports r =
    let opened = open_wanted binds ports r in close_unwanted ports opened.listeners opened

unfoldable pub close_all : PortRelay → PortRelay
close_all r = close_unwanted [] r.listeners r

-- `fmt.Fprintf(conn, "CONNECT 127.0.0.1 %d\n", port)` in `dialGuest`
unfoldable pub connect_line : ℕ → Bytes
connect_line port = codes "CONNECT 127.0.0.1 " ++ (itoa port ++ codes "\n")

-- the port that `parseConnectLine` returns
unfoldable pub connect_port : Option Signed → Option ℕ
connect_port none = none
connect_port (some (minus n)) = none
connect_port (some (plus n)) = if ltb n 1 || ltb 65535 n then none else some n

abbrev pub with_host : Bytes → Option ℕ → Option (Bytes × ℕ)
with_host host none = none
with_host host (some port) = some (host, port)

unfoldable pub connect_fields : List Bytes → Option (Bytes × ℕ)
connect_fields (command ∷ host ∷ port ∷ []) =
    if str_eq command (codes "CONNECT") && str_eq host (codes "127.0.0.1")
    then with_host host (connect_port (parse_int port))
    else none
connect_fields _ = none

unfoldable pub parse_connect_line : Bytes → Option (Bytes × ℕ)
parse_connect_line line = connect_fields (fields line)
