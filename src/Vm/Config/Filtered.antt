-- ===== src/Vm/Config/Filtered.antt =====
-- The kernel command line of a VM on Cloud Hypervisor as a whole.
use spind.Prelude.{
  All, Any, List-cases, ap, or_cases, or_right, str_eq_iff, str_eq_self, ◌⊎◌, ◌≢◌, Bool-cases,
  Bytes, List, [], arith, codes, false, inl, inr, refl, str_eq, true, ◌∷◌, ◌≡◌,
}
use spind.Text.Words.{has_prefix, trim_space, fields}
use spind.Snapshot.Prune.{has_name}
use spind.Vm.Config.{ImageMetadata}
use spind.Vm.Config.CommandLine.{
  is_dropped, is_modules, kept_fields, filtered_fields, join_words,
  cloud_hypervisor_kernel_command_line,
}
use spind.Vm.Config.Modules.{
  lists_driver, loads_driver, any_field, all_fields, is_kept, filtered_rest,
}

-- a field that is none of those that the hypervisor sets: a console, a root, its mode or the network
pub record IsOther (field : Bytes) : Type 0 where
  pub no_console : has_prefix (codes "console=") field ≡ false
  pub no_root : has_prefix (codes "root=") field ≡ false
  pub not_rw : str_eq field (codes "rw") ≡ false
  pub not_ro : str_eq field (codes "ro") ≡ false
  pub no_network : has_prefix (codes "spind.ch_net=") field ≡ false
  pub no_old_network : has_prefix (codes "kido.ch_net=") field ≡ false

-- where the field lists modules, the network driver is among them
abbrev pub HasDriver : Bytes → Type 0
HasDriver field = has_prefix (codes "modules=") field ≡ true → lists_driver field ≡ true

kept-IsOther : (field : Bytes) → is_kept field ≡ true → IsOther field × HasDriver field
unfolding is_dropped is_modules
kept-IsOther field h = (
  record {
    no_console = ground (arith, h);
    no_root = ground (arith, h);
    not_rw = ground (arith, h);
    not_ro = ground (arith, h);
    no_network = ground (arith, h);
    no_old_network = ground (arith, h);
  },
  λ k. ground (arith, h, k),
)

All-IsOther :
    (fields : List Bytes)
    → all_fields is_kept fields ≡ true
    → All (λ field. IsOther field × HasDriver field) fields
unfolding all_fields
All-IsOther [] h = tt
All-IsOther (x ∷ xs) h =
    let head : is_kept x ≡ true = ground (arith, h) in
    let rest : all_fields is_kept xs ≡ true = ground (arith, h) in
    (kept-IsOther x head, All-IsOther xs rest)

Any-driver :
    (fields : List Bytes)
    → any_field loads_driver fields ≡ true
    → Any
        (λ field. (has_prefix (codes "modules=") field ≡ true) × (lists_driver field ≡ true))
        fields
unfolding any_field is_modules
Any-driver [] h = cc
Any-driver (x ∷ xs) h = elim (or_cases (loads_driver x) (any_field loads_driver xs) h) [
  | inl e ↦
      let modules : has_prefix (codes "modules=") x ≡ true = ground (arith, e) in
      let drivers : lists_driver x ≡ true = ground (arith, e) in inl (modules, drivers)
  | inr e ↦ inr (Any-driver xs e)
]

other_kept : (field : Bytes) → IsOther field → is_dropped field ≡ false
unfolding is_dropped
other_kept field other =
    let a = other.no_console in
    let b = other.no_root in
    let c = other.not_rw in
    let d = other.not_ro in
    let e = other.no_network in let f = other.no_old_network in ground (arith, a, b, c, d, e, f)

kept_fields-has :
    (field : Bytes) (words : List Bytes)
    → IsOther field
    → has_prefix (codes "modules=") field ≡ false
    → has_name field words ≡ true
    → has_name field (kept_fields words).0 ≡ true
unfolding kept_fields has_name is_modules
kept_fields-has field [] other plain h = cc
kept_fields-has field (w ∷ ws) other plain h = elim (Bool-cases (str_eq w field)) [
  | inl e ↦
      let same = (str_eq_iff w field).0 e in
      rw (same, other_kept field other, plain, str_eq_self field) refl
  | inr e ↦
      let later = kept_fields-has field ws other plain (rw e at h) in
      elim (Bool-cases (is_dropped w)) [
        | inl d ↦ rw d later
        | inr d ↦ elim (Bool-cases (has_prefix (codes "modules=") w)) [
          | inl m ↦ rw (d, m) (or_right _ (has_name field (kept_fields ws).0) later)
          | inr m ↦ rw (d, m) (or_right _ (has_name field (kept_fields ws).0) later)
        ]
      ]
]

-- what the fields of an image's command line become
pub record IsFiltered (words : List Bytes) (command_line : Bytes) : Type 0 where
  pub rest : List Bytes
  pub line :
      command_line
      ≡ join_words (
          codes "console=ttyS0"
          ∷ codes "root=/dev/vda1"
          ∷ codes "rw"
          ∷ codes "spind.ch_net=1"
          ∷ codes "kido.ch_net=1"
          ∷ rest)
  pub all_others : All (λ field. IsOther field × HasDriver field) rest
  pub has_driver :
      Any (λ field. (has_prefix (codes "modules=") field ≡ true) × (lists_driver field ≡ true)) rest
  pub keeps :
      (field : Bytes)
      → IsOther field
      → has_prefix (codes "modules=") field ≡ false
      → has_name field words ≡ true
      → has_name field rest ≡ true

filtered_fields-IsFiltered :
    (words : List Bytes) → IsFiltered words (join_words (filtered_fields words))
filtered_fields-IsFiltered words =
    let (rest, line, driver_there, kept, has) = filtered_rest words in
    record {
      rest = rest;
      line = ap join_words line;
      all_others = All-IsOther rest kept;
      has_driver = Any-driver rest driver_there;
      keeps = λ field other plain h. has field (kept_fields-has field words other plain h);
    }

-- The kernel command line on Cloud Hypervisor is that of the image without the spaces around it where
-- the image is one of microvm-nix, and a console and a root where the image has none. Otherwise it
-- begins with the hypervisor's console, root and network; what follows sets none of these again,
-- loads the network driver, names it in each list of modules, and has every other field of the image.
pub cloud_hypervisor_kernel_command_line_lem :
    (image : ImageMetadata)
    → let line = cloud_hypervisor_kernel_command_line image in
      (image.image_type ≡ codes "microvm-nix") × (line ≡ trim_space image.kernel_command_line)
      ⊎ (image.image_type ≢ codes "microvm-nix")
        × ((fields image.kernel_command_line ≡ [])
              × (line ≡ codes "console=ttyS0 root=/dev/vda1 rw")
            ⊎ IsFiltered (fields image.kernel_command_line) line)
unfolding cloud_hypervisor_kernel_command_line
cloud_hypervisor_kernel_command_line_lem image =
    elim (Bool-cases (str_eq image.image_type (codes "microvm-nix"))) [
      | inl e ↦ rw (cloud_hypervisor_kernel_command_line, e) (inl ((str_eq_iff _ _).0 e, refl))
      | inr e ↦
          let differs : image.image_type ≢ codes "microvm-nix" =
            λ same. cc (e, (str_eq_iff _ _).1 same) in
          elim (List-cases (fields image.kernel_command_line)) [
            | inl none_there ↦
                rw (cloud_hypervisor_kernel_command_line, e, none_there)
                  (inr (differs, inl (refl, refl)))
            | inr (word, words, some_there) ↦
                rw (cloud_hypervisor_kernel_command_line, e, some_there)
                  (inr (differs, inr (filtered_fields-IsFiltered (word ∷ words))))
          ]
    ]
