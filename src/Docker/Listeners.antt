-- ===== src/Docker/Listeners.antt =====
-- What a round of the port relay leaves.
use spind.Prelude.{
  Bool, Bool-cases, List, [], ap, arith, eq_of_==, false, if◌then◌else◌, inl, inr, not, refl, some,
  sym, ℕ, ◌&&◌, ◌==◌, ◌||◌, ◌∙◌, ◌∷◌, ◌≡◌,
}
use spind.Docker.{
  ContainerSummary, has, PortRelay, remove, open_port, open_wanted, close_port, close_unwanted,
  reconcile, close_all, published_ports_raw,
}
use spind.Docker.Ports.{publishes, has-published_ports_raw}

has-remove : (p q : ℕ) (xs : List ℕ) → has p (remove q xs) ≡ (not (p == q) && has p xs)
unfolding has remove
has-remove p q [] = ground arith
has-remove p q (x ∷ xs) = ground (arith, has-remove p q xs)

has-remove_self : (p : ℕ) (xs : List ℕ) → has p (remove p xs) ≡ false
has-remove_self p xs = rw (has-remove p p xs) (ground arith)

has-remove_other : (p q : ℕ) (xs : List ℕ) → (p == q) ≡ false → has p (remove q xs) ≡ has p xs
has-remove_other p q xs h = rw (has-remove p q xs) (ground (arith, h))

module _ (binds : ℕ → Bool) where
  open_port_self :
      (p : ℕ) (r : PortRelay)
      → has p (open_port binds p r).listeners ≡ (has p r.listeners || binds p)
  unfolding has
  open_port_self p r = ground arith

  open_port_other :
      (p q : ℕ) (r : PortRelay)
      → (p == q) ≡ false
      → has p (open_port binds q r).listeners ≡ has p r.listeners
  unfolding has
  open_port_other p q r h = ground (arith, h)

  has-open_wanted :
      (p : ℕ) (ps : List ℕ) (r : PortRelay)
      → has p (open_wanted binds ps r).listeners ≡ (has p r.listeners || has p ps && binds p)
  unfolding has open_wanted
  has-open_wanted p [] r = ground arith
  has-open_wanted p (q ∷ qs) r = elim (Bool-cases (p == q)) [
    | inl e ↦
        let same = sym (eq_of_== p q e) in
        rw (same, has-open_wanted p qs (open_port binds p r), open_port_self p r) (ground arith)
    | inr e ↦ rw (e, has-open_wanted p qs (open_port binds q r), open_port_other p q r e) refl
  ]

module _ (wanted : List ℕ) where
  abbrev closed : ℕ → PortRelay → PortRelay
  closed q r = if has q wanted then r else close_port q r

  closed_self :
      (p : ℕ) (r : PortRelay) → has p (closed p r).listeners ≡ (has p r.listeners && has p wanted)
  closed_self p r = elim (Bool-cases (has p wanted)) [
    | inl e ↦ rw e (ground arith)
    | inr e ↦ rw (e, has-remove_self p r.listeners) (ground arith)
  ]

  closed_other :
      (p q : ℕ) (r : PortRelay)
      → (p == q) ≡ false
      → has p (closed q r).listeners ≡ has p r.listeners
  closed_other p q r h = elim (Bool-cases (has q wanted)) [
    | inl e ↦ rw e refl
    | inr e ↦ rw e (has-remove_other p q r.listeners h)
  ]

  has-close_unwanted :
      (p : ℕ) (ps : List ℕ) (r : PortRelay)
      → has p (close_unwanted wanted ps r).listeners
        ≡ (has p r.listeners && (not (has p ps) || has p wanted))
  unfolding has close_unwanted
  has-close_unwanted p [] r = ground arith
  has-close_unwanted p (q ∷ qs) r = elim (Bool-cases (p == q)) [
    | inl e ↦
        let same = sym (eq_of_== p q e) in
        rw (same, has-close_unwanted p qs (closed p r), closed_self p r) (ground arith)
    | inr e ↦ rw (e, has-close_unwanted p qs (closed q r), closed_other p q r e) refl
  ]

has-reconcile :
    (binds : ℕ → Bool) (ports : List ℕ) (r : PortRelay) (p : ℕ)
    → has p (reconcile binds ports r).listeners ≡ (has p ports && (has p r.listeners || binds p))
unfolding reconcile
has-reconcile binds ports r p =
    let opened = open_wanted binds ports r in
    rw (has-close_unwanted ports p opened.listeners opened, has-open_wanted binds p ports r)
      (ground arith)

-- After a round in which the Docker API answered, the relay listens on exactly the ports that some
-- container publishes over TCP, apart from those on which it did not listen and cannot.
pub reconcile-publishes :
    (binds : ℕ → Bool) (containers : List ContainerSummary) (r : PortRelay) (p : ℕ)
    → has p (reconcile binds (published_ports_raw (some containers)) r).listeners
      ≡ (publishes p containers && (has p r.listeners || binds p))
reconcile-publishes binds containers r p =
    has-reconcile binds (published_ports_raw (some containers)) r p
    ∙ ap (λ b. b && (has p r.listeners || binds p)) (has-published_ports_raw containers p)

-- The open sockets are those of the listeners.
abbrev pub Balanced : PortRelay → Type 0
Balanced r = (p : ℕ) → has p r.sockets ≡ has p r.listeners

open_port-Balanced :
    (binds : ℕ → Bool) (q : ℕ) (r : PortRelay) → Balanced r → Balanced (open_port binds q r)
unfolding has
open_port-Balanced binds q r h p = ground (arith, h p)

open_wanted-Balanced :
    (binds : ℕ → Bool) (ps : List ℕ) (r : PortRelay)
    → Balanced r
    → Balanced (open_wanted binds ps r)
unfolding open_wanted
open_wanted-Balanced binds [] r h = h
open_wanted-Balanced binds (q ∷ qs) r h =
    open_wanted-Balanced binds qs (open_port binds q r) (open_port-Balanced binds q r h)

closed-Balanced :
    (wanted : List ℕ) (q : ℕ) (r : PortRelay) → Balanced r → Balanced (closed wanted q r)
closed-Balanced wanted q r h p = elim (Bool-cases (has q wanted)) [
  | inl e ↦ rw e (h p)
  | inr e ↦ rw (e, has-remove p q r.sockets, has-remove p q r.listeners, h p) refl
]

close_unwanted-Balanced :
    (wanted ps : List ℕ) (r : PortRelay) → Balanced r → Balanced (close_unwanted wanted ps r)
unfolding close_unwanted
close_unwanted-Balanced wanted [] r h = h
close_unwanted-Balanced wanted (q ∷ qs) r h =
    close_unwanted-Balanced wanted qs (closed wanted q r) (closed-Balanced wanted q r h)

-- If the open sockets are those of the listeners, they still are after a round, and `closeAll`
-- then leaves none open.
pub reconcile-Balanced :
    (binds : ℕ → Bool) (ports : List ℕ) (r : PortRelay)
    → Balanced r
    → Balanced (reconcile binds ports r)
      × ((p : ℕ) → has p (close_all (reconcile binds ports r)).sockets ≡ false)
unfolding reconcile close_all has
reconcile-Balanced binds ports r h =
    let opened = open_wanted binds ports r in
    let round = reconcile binds ports r in
    let balanced =
      close_unwanted-Balanced ports opened.listeners opened
        (open_wanted-Balanced binds ports r h) in
    (
      balanced,
      λ p.
          close_unwanted-Balanced [] round.listeners round balanced p
          ∙ has-close_unwanted [] p round.listeners round
          ∙ ground arith,
    )
