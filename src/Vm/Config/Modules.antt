-- ===== src/Vm/Config/Modules.antt =====
-- The kernel command line of a VM on Cloud Hypervisor loads the network driver, and its console and
-- its root are those of the hypervisor.
use spind.Prelude.{
  or_cases, or_left, or_right, Bool, Bool-cases, Bytes, List, [], arith, codes, eq_of_==, false,
  inl, inr, is_empty, none, not, refl, some, str_eq, true, ℕ, ◌&&◌, ◌++◌, ◌==◌, ◌||◌, ◌∙◌, ◌∷◌, ◌≡◌,
}
use spind.Text.Words.{has_prefix, grow_word}
use spind.Snapshot.Prune.{has_name}
use spind.Vm.Config.CommandLine.{
  split_commas, cut_equals, ensure_comma_list_value, is_dropped, is_modules, kept_fields,
  own_fields, filtered_fields,
}

abbrev pub driver : Bytes
driver = codes "virtio_net"

-- whether the list behind `=` in a field has the driver
abbrev pub lists_driver : Bytes → Bool
lists_driver field = elim (cut_equals field) [
  | none ↦ false
  | some cut ↦ has_name driver (split_commas cut.1)
]

abbrev pub loads_driver : Bytes → Bool
loads_driver field = is_modules field && lists_driver field

unfoldable pub any_field : (Bytes → Bool) → List Bytes → Bool
any_field p [] = false
any_field p (x ∷ xs) = p x || any_field p xs

unfoldable pub all_fields : (Bytes → Bool) → List Bytes → Bool
all_fields p [] = true
all_fields p (x ∷ xs) = p x && all_fields p xs

tail_of : List Bytes → List Bytes
tail_of [] = []
tail_of (x ∷ xs) = xs

tail_of-grow_word : (c : ℕ) (ws : List Bytes) → tail_of (grow_word c ws) ≡ tail_of ws
unfolding tail_of
tail_of-grow_word c [] = refl
tail_of-grow_word c (w ∷ ws) = refl

has_name-tail_of :
    (name : Bytes) (ws : List Bytes) → has_name name (tail_of ws) ≡ true → has_name name ws ≡ true
unfolding tail_of has_name
has_name-tail_of name [] h = cc
has_name-tail_of name (w ∷ ws) h = ground arith

split_commas-tail :
    (s : Bytes) → has_name driver (tail_of (split_commas (s ++ (b',' ∷ driver)))) ≡ true
unfolding tail_of has_name split_commas str_eq
split_commas-tail [] = refl
split_commas-tail (c ∷ cs) = elim (Bool-cases (c == b',')) [
  | inl e ↦
      rw e (has_name-tail_of driver (split_commas (cs ++ (b',' ∷ driver))) (split_commas-tail cs))
  | inr e ↦
      rw (e, tail_of-grow_word c (split_commas (cs ++ (b',' ∷ driver)))) (split_commas-tail cs)
]

has_prefix_rest : (p s : Bytes) → has_prefix p s ≡ true → (rest : Bytes) × (s ≡ p ++ rest)
unfolding has_prefix
has_prefix_rest [] s h = (s, refl)
has_prefix_rest (c ∷ cs) [] h = cc
has_prefix_rest (c ∷ cs) (d ∷ ds) h = elim (Bool-cases (c == d)) [
  | inr e ↦ cc (rw e at h)
  | inl e ↦ let (rest, k) = has_prefix_rest cs ds (rw e at h) in (rest, rw (eq_of_== c d e, k) refl)
]

driver_alone : has_name driver (split_commas driver) ≡ true
unfolding has_name split_commas str_eq
driver_alone = refl

-- a field of modules as the loop leaves it
abbrev Loads : Bytes → Type 0
Loads field = (loads_driver field ≡ true) × (is_dropped field ≡ false)

ensure_modules : (rest : Bytes) → Loads (ensure_comma_list_value (codes "modules=" ++ rest) driver)
unfolding ensure_comma_list_value cut_equals is_modules is_dropped has_prefix str_eq
ensure_modules rest = elim (Bool-cases (has_name driver (split_commas rest))) [
  | inl e ↦ rw e (e, refl)
  | inr e ↦ elim (Bool-cases (is_empty rest)) [
    | inl e' ↦ rw (e, e') (driver_alone, refl)
    | inr e' ↦ rw (e, e') (has_name-tail_of driver _ (split_commas-tail rest), refl)
  ]
]

-- a field that the loop may keep: not one of the hypervisor's own, and with the driver where it lists
-- modules
abbrev pub is_kept : Bytes → Bool
is_kept field = not (is_dropped field) && (not (is_modules field) || lists_driver field)

modules_word : (word : Bytes) → is_modules word ≡ true → Loads (ensure_comma_list_value word driver)
unfolding is_modules
modules_word word h =
    let (rest, e) = has_prefix_rest (codes "modules=") word h in rw e (ensure_modules rest)

kept_fields_lem :
    (words : List Bytes)
    → let (kept, has_modules) = kept_fields words in
      (all_fields is_kept kept ≡ true) × (any_field loads_driver kept ≡ has_modules)
unfolding kept_fields all_fields any_field
kept_fields_lem [] = (refl, refl)
kept_fields_lem (word ∷ words) =
    let (all, any) = kept_fields_lem words in
    elim (Bool-cases (is_dropped word)) [
      | inl e ↦ rw e (all, any)
      | inr e ↦ elim (Bool-cases (is_modules word)) [
        | inl e' ↦
            let (loads, kept) = modules_word word e' in
            rw (e, e') (ground (arith, loads, kept, all), ground (arith, loads))
        | inr e' ↦ rw (e, e') (ground (arith, all, e'), ground (arith, any, e'))
      ]
    ]

has_name-append :
    (name : Bytes) (xs ys : List Bytes) → has_name name xs ≡ true → has_name name (xs ++ ys) ≡ true
unfolding has_name
has_name-append name [] ys h = cc
has_name-append name (x ∷ xs) ys h = elim (or_cases (str_eq x name) (has_name name xs) h) [
  | inl e ↦ or_left _ (has_name name (xs ++ ys)) e
  | inr e ↦ or_right (str_eq x name) _ (has_name-append name xs ys e)
]

all_fields-append :
    (p : Bytes → Bool) (xs ys : List Bytes)
    → all_fields p (xs ++ ys) ≡ (all_fields p xs && all_fields p ys)
unfolding all_fields
all_fields-append p [] ys = refl
all_fields-append p (x ∷ xs) ys = ground (arith, all_fields-append p xs ys)

any_field-append :
    (p : Bytes → Bool) (xs ys : List Bytes)
    → any_field p (xs ++ ys) ≡ (any_field p xs || any_field p ys)
unfolding any_field
any_field-append p [] ys = refl
any_field-append p (x ∷ xs) ys = ground (arith, any_field-append p xs ys)

modules_field : Loads (codes "modules=virtio_net")
unfolding is_modules is_dropped has_prefix cut_equals split_commas has_name str_eq
modules_field = (refl, refl)

own_modules :
    (any_field loads_driver (codes "modules=virtio_net" ∷ []) ≡ true)
    × (all_fields is_kept (codes "modules=virtio_net" ∷ []) ≡ true)
unfolding any_field all_fields
own_modules = (ground (arith, modules_field.0), ground (arith, modules_field.0, modules_field.1))

pub filtered_rest :
    (words : List Bytes)
    → (rest : List Bytes) × (filtered_fields words ≡ own_fields ++ rest)
      × (any_field loads_driver rest ≡ true)
      × (all_fields is_kept rest ≡ true)
      × ((field : Bytes) → has_name field (kept_fields words).0 ≡ true → has_name field rest ≡ true)
unfolding filtered_fields
filtered_rest words =
    let kept = (kept_fields words).0 in
    let (all, any) = kept_fields_lem words in
    elim (Bool-cases (kept_fields words).1) [
      | inl e ↦ (kept, rw e refl, any ∙ e, all, λ field h. h)
      | inr e ↦ (
        kept ++ (codes "modules=virtio_net" ∷ []),
        rw e refl,
        any_field-append loads_driver kept _ ∙ ground (arith, own_modules.0),
        all_fields-append is_kept kept _ ∙ ground (arith, own_modules.1, all),
        λ field h. has_name-append field kept _ h,
      )
    ]
