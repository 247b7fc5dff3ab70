-- ===== src/Docker/Ports.antt =====
-- Which ports the containers publish.
use spind.Prelude.{
  All, Any, Bool, Bool-cases, List, [], arith, codes, false, not, str_eq, str_eq_iff, sym, true,
  inl, inr, ltb, or_cases, or_left, or_right, ltb→lt, refl, some, ℕ, ◌&&◌, ◌<◌, ◌==◌, ◌||◌, ◌∷◌,
  ◌≡◌, ◌↔◌, ◌∙◌,
}
use spind.Text.Words.{to_lower}
use spind.Docker.{
  PortMapping, ContainerSummary, has, insert, is_published, seen_of_ports, seen_of_containers,
  published_ports_raw,
}

pub has-insert : (p q : ℕ) (xs : List ℕ) → has p (insert q xs) ≡ (p == q || has p xs)
unfolding has insert
has-insert p q [] = refl
has-insert p q (x ∷ xs) = ground (arith, has-insert p q xs)

-- whether a mapping is one of TCP at a port of the host
abbrev publishes_tcp : PortMapping → Bool
publishes_tcp x = not (x.public_port == 0) && str_eq (to_lower x.port_type) (codes "tcp")

is_published_lem : (x : PortMapping) → is_published x ≡ publishes_tcp x
unfolding is_published
is_published_lem x = ground arith

-- A mapping of the list publishes the port.
unfoldable pub maps : ℕ → List PortMapping → Bool
maps p [] = false
maps p (x ∷ xs) = publishes_tcp x && p == x.public_port || maps p xs

unfoldable pub publishes : ℕ → List ContainerSummary → Bool
publishes p [] = false
publishes p (x ∷ xs) = maps p x.ports || publishes p xs

has-seen_of_ports :
    (p : ℕ) (xs : List PortMapping) (seen : List ℕ)
    → has p (seen_of_ports xs seen) ≡ (has p seen || maps p xs)
unfolding seen_of_ports maps
has-seen_of_ports p [] seen = ground arith
has-seen_of_ports p (x ∷ xs) seen = elim (Bool-cases (is_published x)) [
  | inl e ↦
      let e' = sym (is_published_lem x) ∙ e in
      rw (e, has-seen_of_ports p xs (insert x.public_port seen), has-insert p x.public_port seen)
        (ground (arith, e'))
  | inr e ↦
      let e' = sym (is_published_lem x) ∙ e in
      rw (e, has-seen_of_ports p xs seen) (ground (arith, e'))
]

has-seen_of_containers :
    (p : ℕ) (xs : List ContainerSummary) (seen : List ℕ)
    → has p (seen_of_containers xs seen) ≡ (has p seen || publishes p xs)
unfolding seen_of_containers publishes
has-seen_of_containers p [] seen = ground arith
has-seen_of_containers p (x ∷ xs) seen =
    rw (has-seen_of_containers p xs (seen_of_ports x.ports seen), has-seen_of_ports p x.ports seen)
      (ground arith)

-- The ports are in order, and no port is there twice.
pub Ascending : List ℕ → Type 0
Ascending [] = Unit
Ascending (x ∷ xs) = All (λ y. x < y) xs × Ascending xs

All-insert : (P : ℕ → Type 0) (q : ℕ) (xs : List ℕ) → P q → All P xs → All P (insert q xs)
unfolding insert
All-insert P q [] h all = (h, tt)
All-insert P q (x ∷ xs) h (this, rest) = elim (Bool-cases (ltb q x)) [
  | inl e ↦ rw e (h, (this, rest))
  | inr e ↦ elim (Bool-cases (q == x)) [
    | inl e' ↦ rw (e, e') (this, rest)
    | inr e' ↦ rw (e, e') (this, All-insert P q xs h rest)
  ]
]

All-above : (q x : ℕ) (xs : List ℕ) → q < x → All (λ y. x < y) xs → All (λ y. q < y) xs
All-above q x [] h all = tt
All-above q x (y ∷ ys) h (this, rest) = (omega (arith, h, this), All-above q x ys h rest)

insert-Ascending : (q : ℕ) (xs : List ℕ) → Ascending xs → Ascending (insert q xs)
unfolding insert Ascending
insert-Ascending q [] h = (tt, tt)
insert-Ascending q (x ∷ xs) (above, rest) = elim (Bool-cases (ltb q x)) [
  | inl e ↦ rw e ((ltb→lt q x e, All-above q x xs (ltb→lt q x e) above), (above, rest))
  | inr e ↦ elim (Bool-cases (q == x)) [
    | inl e' ↦ rw (e, e') (above, rest)
    | inr e' ↦
        rw (e, e') (All-insert (λ y. x < y) q xs (ground arith) above, insert-Ascending q xs rest)
  ]
]

seen_of_ports-Ascending :
    (xs : List PortMapping) (seen : List ℕ) → Ascending seen → Ascending (seen_of_ports xs seen)
unfolding seen_of_ports
seen_of_ports-Ascending [] seen h = h
seen_of_ports-Ascending (x ∷ xs) seen h = elim (Bool-cases (is_published x)) [
  | inl e ↦ rw e (
      seen_of_ports-Ascending xs (insert x.public_port seen)
        (insert-Ascending x.public_port seen h))
  | inr e ↦ rw e (seen_of_ports-Ascending xs seen h)
]

seen_of_containers-Ascending :
    (xs : List ContainerSummary) (seen : List ℕ)
    → Ascending seen
    → Ascending (seen_of_containers xs seen)
unfolding seen_of_containers
seen_of_containers-Ascending [] seen h = h
seen_of_containers-Ascending (x ∷ xs) seen h =
    seen_of_containers-Ascending xs (seen_of_ports x.ports seen)
      (seen_of_ports-Ascending x.ports seen h)

-- a mapping of TCP, in any case of its letters, at the port of the host
pub record PublishesTcp (p : ℕ) (port : PortMapping) : Type 0 where
  pub is_tcp : to_lower port.port_type ≡ codes "tcp"
  pub is_set : 0 < port.public_port
  pub at_port : p ≡ port.public_port

publishes_tcp_to :
    (p : ℕ) (x : PortMapping) → (publishes_tcp x && p == x.public_port) ≡ true → PublishesTcp p x
publishes_tcp_to p x h = record {
  is_tcp = (str_eq_iff (to_lower x.port_type) (codes "tcp")).0 (ground (arith, h));
  is_set = ground (arith, h);
  at_port = ground (arith, h);
}

publishes_tcp_from :
    (p : ℕ) (x : PortMapping) → PublishesTcp p x → (publishes_tcp x && p == x.public_port) ≡ true
publishes_tcp_from p x h =
    let tcp = (str_eq_iff (to_lower x.port_type) (codes "tcp")).1 h.is_tcp in
    let is_set = h.is_set in let at_port = h.at_port in ground (arith, tcp, is_set, at_port)

maps_iff : (p : ℕ) (xs : List PortMapping) → (maps p xs ≡ true) ↔ Any (PublishesTcp p) xs
unfolding maps
maps_iff p [] = (λ h. cc, λ h. elim h [ ])
maps_iff p (x ∷ xs) = (
  λ h. elim (or_cases (publishes_tcp x && p == x.public_port) (maps p xs) h) [
    | inl e ↦ inl (publishes_tcp_to p x e)
    | inr e ↦ inr ((maps_iff p xs).0 e)
  ],
  λ h. elim h [
    | inl here ↦ or_left _ (maps p xs) (publishes_tcp_from p x here)
    | inr later ↦ or_right _ (maps p xs) ((maps_iff p xs).1 later)
  ],
)

publishes_iff :
    (p : ℕ) (xs : List ContainerSummary)
    → (publishes p xs ≡ true) ↔ Any (λ c. Any (PublishesTcp p) c.ports) xs
unfolding publishes
publishes_iff p [] = (λ h. cc, λ h. elim h [ ])
publishes_iff p (x ∷ xs) = (
  λ h. elim (or_cases (maps p x.ports) (publishes p xs) h) [
    | inl e ↦ inl ((maps_iff p x.ports).0 e)
    | inr e ↦ inr ((publishes_iff p xs).0 e)
  ],
  λ h. elim h [
    | inl here ↦ or_left _ (publishes p xs) ((maps_iff p x.ports).1 here)
    | inr later ↦ or_right _ (publishes p xs) ((publishes_iff p xs).1 later)
  ],
)

pub has-published_ports_raw :
    (containers : List ContainerSummary) (p : ℕ)
    → has p (published_ports_raw (some containers)) ≡ publishes p containers
unfolding published_ports_raw has
has-published_ports_raw containers p = has-seen_of_containers p containers []

-- `PublishedPortsRaw` returns its ports in ascending order, each once, and a port is among them
-- exactly if a mapping of some container is of TCP, in any case of its letters, and has that port,
-- which is not zero, on the host.
pub published_ports_raw_lem :
    (containers : List ContainerSummary)
    → Ascending (published_ports_raw (some containers))
      × ((p : ℕ)
          → (has p (published_ports_raw (some containers)) ≡ true)
            ↔ Any (λ c. Any (PublishesTcp p) c.ports) containers)
unfolding published_ports_raw Ascending
published_ports_raw_lem containers = (
  seen_of_containers-Ascending containers [] tt,
  λ p.
      let same = has-published_ports_raw containers p in
      let (to, from) = publishes_iff p containers in (λ h. to (sym same ∙ h), λ h. same ∙ from h),
)
