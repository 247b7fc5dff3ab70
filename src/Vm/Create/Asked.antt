-- ===== src/Vm/Create/Asked.antt =====
-- What a creation is asked for, and what is accepted.
use spind.Prelude.{
  >>=-eq-ok, Bool, Bool-cases, Bytes, Option, [], ap, arith, codes, false, guard, guard-true, inl,
  inr, is_empty, none, not, ok, refl, some, str_eq, str_eq_iff, subst, sym, true, ℕ, ◌<◌, ◌==◌, ◌∷◌,
  ◌≡◌, ◌≢◌, ◌⊎◌,
}
use spind.Text.Decimal.{Signed, plus, minus}
use spind.Name.{valid_name}
use spind.Snapshot.{is_backend}
use spind.Vm.{JsonFile, missing, unreadable, readable, or_else, or_default}
use spind.Vm.Store.{lookup, ImageDir, ImageEntry, image_directory, image_not_directory, Images}
use spind.Vm.Config.{ImageMetadata}
use spind.Vm.Create.{
  Creator, VmCreateOptions, Accepted, accept, apply_option, is_negative, validate_create_options,
  choose_backend, default_backend, hydrate_image, metadata_of, read_image, cpu_not_positive,
  memory_not_positive, invalid_name, unknown_backend,
}

-- Nothing was asked for.
abbrev pub Unset : Signed → Type 0
Unset asked = (asked ≡ plus 0) ⊎ (asked ≡ minus 0)

-- A number that is not zero was asked for, or the image gives one, or it is the default.
pub data Chosen (asked : Signed) (of_image default : ℕ) (n : ℕ) : Type 0 where
  by_option : asked ≡ plus n → 0 < n → Chosen asked of_image default n
  by_image : Unset asked → 0 < of_image → n ≡ of_image → Chosen asked of_image default n
  by_default : Unset asked → of_image ≡ 0 → n ≡ default → Chosen asked of_image default n

pub data ChosenBackend (goos asked chosen : Bytes) : Type 0 where
  by_name : asked ≢ [] → chosen ≡ asked → ChosenBackend goos asked chosen
  of_linux :
      asked ≡ []
      → goos ≡ codes "linux"
      → chosen ≡ codes "cloud-hypervisor"
      → ChosenBackend goos asked chosen
  of_darwin :
      asked ≡ []
      → goos ≡ codes "darwin"
      → chosen ≡ codes "virtualization-framework"
      → ChosenBackend goos asked chosen

Unset-value :
    (asked : Signed) (of_image default : ℕ)
    → Unset asked
    → Chosen asked of_image default (or_default of_image default)
Unset-value asked of_image default unset = elim (Bool-cases (of_image == 0)) [
  | inl e ↦ rw e (by_default unset (ground (arith, e)) refl)
  | inr e ↦ rw e (by_image unset (ground (arith, e)) refl)
]

pub apply_option-Chosen :
    (asked : Signed) (of_image default : ℕ)
    → is_negative asked ≡ false
    → Chosen asked of_image default (apply_option asked (or_default of_image default))
unfolding apply_option
apply_option-Chosen (minus n) of_image default h =
    let zero_asked : n ≡ 0 = ground (arith, h) in
    Unset-value (minus n) of_image default (inr (ap minus zero_asked))
apply_option-Chosen (plus n) of_image default h = elim (Bool-cases (n == 0)) [
  | inr e ↦ rw e (by_option refl (ground (arith, e)))
  | inl e ↦
      let zero_asked : n ≡ 0 = ground (arith, e) in
      rw e (Unset-value (plus n) of_image default (inl (ap plus zero_asked)))
]

not-false : (b : Bool) → not b ≡ true → b ≡ false
not-false b h = ground arith

plain_options :
    (options : VmCreateOptions)
    → validate_create_options options ≡ ok tt
    → (is_negative options.cpu_count ≡ false) × (is_negative options.memory_mib ≡ false)
unfolding validate_create_options
plain_options options h =
    let (_, cpus, memory) =
      >>=-eq-ok (guard (not (is_negative options.cpu_count)) cpu_not_positive) _ h in
    (
      not-false _ (guard-true _ cpu_not_positive _ cpus),
      not-false _ (guard-true _ memory_not_positive _ memory),
    )

choose_backend-ChosenBackend :
    (goos backend chosen : Bytes)
    → choose_backend goos backend ≡ ok chosen
    → ChosenBackend goos backend chosen
unfolding choose_backend default_backend is_empty
choose_backend-ChosenBackend goos [] chosen h = elim (Bool-cases (str_eq goos (codes "linux"))) [
  | inl e ↦ of_linux refl ((str_eq_iff _ _).0 e) (cc (rw e at h))
  | inr e ↦ elim (Bool-cases (str_eq goos (codes "darwin"))) [
    | inl e' ↦ of_darwin refl ((str_eq_iff _ _).0 e') (cc (rw (e, e') at h))
    | inr e' ↦ cc (rw (e, e') at h)
  ]
]
choose_backend-ChosenBackend goos (c ∷ cs) chosen h = by_name (λ e. cc e) (cc h)

-- what was accepted is the image of that name, with what its reading fills in
pub record IsOf (goarch image_name : Bytes) (image : ImageMetadata) (taken : ImageMetadata)
    : Type 0 where
  pub same_cpus : taken.cpu_count ≡ image.cpu_count
  pub same_memory : taken.memory_mib ≡ image.memory_mib
  pub same_disks : taken.disks ≡ image.disks
  pub its_name : taken.name ≡ or_else image.name image_name

read_metadata_of :
    (goarch : Bytes) (dir : ImageDir) (file : JsonFile ImageMetadata)
    (found : ImageMetadata × ImageDir)
    → metadata_of goarch dir file ≡ ok found
    → (image : ImageMetadata) × (file ≡ readable image) × (hydrate_image goarch image ≡ found.0)
unfolding metadata_of
read_metadata_of goarch dir missing found h = cc
read_metadata_of goarch dir unreadable found h = cc
read_metadata_of goarch dir (readable image) found h =
    let made : ImageMetadata × ImageDir = (hydrate_image goarch image, dir) in
    let same : made ≡ found = cc h in (image, refl, ap (λ t. t.0) same)

found_image :
    (goarch : Bytes) (entry : Option ImageEntry) (found : ImageMetadata × ImageDir)
    → read_image goarch entry ≡ ok found
    → (dir : ImageDir) × (image : ImageMetadata) × (entry ≡ some (image_directory dir))
      × (dir.metadata ≡ readable image)
      × (hydrate_image goarch image ≡ found.0)
unfolding read_image
found_image goarch none found h = cc
found_image goarch (some image_not_directory) found h = cc
found_image goarch (some (image_directory dir)) found h =
    let (image, e, k) = read_metadata_of goarch dir dir.metadata found h in (dir, image, refl, e, k)

pub record IsAccepted (creator : Creator) (image_name backend : Bytes) (options : VmCreateOptions)
    (images : Images) (accepted : Accepted) : Type 0 where
  pub dir : ImageDir
  pub image : ImageMetadata
  pub there : lookup image_name images ≡ some (image_directory dir)
  pub image_read : dir.metadata ≡ readable image
  pub taken : IsOf creator.goarch image_name image accepted.image
  pub chosen : ChosenBackend creator.goos backend accepted.backend
  pub plain_cpus : is_negative options.cpu_count ≡ false
  pub plain_memory : is_negative options.memory_mib ≡ false

pub accept-IsAccepted :
    (creator : Creator) (name image_name backend : Bytes) (options : VmCreateOptions)
    (images : Images) (accepted : Accepted)
    → accept creator name image_name backend options images ≡ ok accepted
    → IsAccepted creator image_name backend options images accepted
unfolding accept hydrate_image
accept-IsAccepted creator name image_name backend options images accepted h =
    let (_, _, r1) = >>=-eq-ok (guard (valid_name name) invalid_name) _ h in
    let (_, h2, r2) = >>=-eq-ok (validate_create_options options) _ r1 in
    let (_, _, r3) = >>=-eq-ok (guard (valid_name image_name) invalid_name) _ r2 in
    let (chosen, h4, r4) = >>=-eq-ok (choose_backend creator.goos backend) _ r3 in
    let (_, _, r5) = >>=-eq-ok (guard (is_backend chosen) unknown_backend) _ r4 in
    let (found, h6, r6) = >>=-eq-ok (read_image creator.goarch (lookup image_name images)) _ r5 in
    let (dir, image, there, image_read, same) =
      found_image creator.goarch (lookup image_name images) found h6 in
    let (plain_cpus, plain_memory) = plain_options options h2 in
    let made : Accepted = record {
      image = record found.0 { name = or_else found.0.name image_name };
      image_dir = found.1;
      backend = chosen;
    } in
    let is_made : made ≡ accepted = cc r6 in
    subst (IsAccepted creator image_name backend options images) is_made (record {
      dir = dir;
      image = image;
      there = there;
      image_read = image_read;
      taken = record {
        same_cpus = sym (ap (λ t. t.cpu_count) same);
        same_memory = sym (ap (λ t. t.memory_mib) same);
        same_disks = sym (ap (λ t. t.disks) same);
        its_name = sym (ap (λ t. or_else t.name image_name) same);
      };
      chosen = choose_backend-ChosenBackend creator.goos backend chosen h4;
      plain_cpus = plain_cpus;
      plain_memory = plain_memory;
    })
