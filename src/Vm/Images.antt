-- ===== src/Vm/Images.antt =====
-- The image of every VM is there: what a creation needs, and what a deletion of an image that is not
-- forced keeps.
use spind.Prelude.{
  >>=-eq-ok, Bool-cases, Bytes, List, Option, Option-cases, Result-cases, [], ap, arith, false,
  guard, inl, inr, none, ok, refl, some, str_eq, str_eq_iff, sym, ◌++◌, ◌∙◌, ◌∷◌, ◌≡◌, ◌⊎◌,
}
use spind.Snapshot.{is_backend}
use spind.Text.Order.{sort_by, sort_by-nil}
use spind.Name.{valid_name}
use spind.Vm.{VmMetadata, readable}
use spind.Vm.Store.{
  lookup, erase, store, lookup-erase_other, lookup-store_self, lookup-store_other, VmDir, directory,
  Vms, ImageDir, ImageEntry, image_directory, image_not_directory, Images,
}
use spind.Vm.Create.{
  Creator, VmCreateOptions, Accepted, accept, choose_backend, read_image, validate_create_options,
  invalid_name, unknown_backend,
}
use spind.Vm.Config.{ImageMetadata}
use spind.Vm.Delete.{
  ImageRemover, reference_of, entry_references, collected_references, image_references,
  delete_image_dir, delete_image_entry, delete_image,
}

pub record Stores : Type 0 where
  pub vms : Vms
  pub images : Images

abbrev pub Exists : Bytes → Images → Type 0
Exists image images = (dir : ImageDir) × (lookup image images ≡ some (image_directory dir))

pub record ImagesExist (stores : Stores) : Type 0 where
  pub exists :
      (name : Bytes) (dir : VmDir) (metadata : VmMetadata)
      → lookup name stores.vms ≡ some (directory dir)
      → dir.metadata ≡ readable metadata
      → Exists metadata.image stores.images

read_image_ok :
    (goarch : Bytes) (entry : Option ImageEntry) (found : ImageMetadata × ImageDir)
    → read_image goarch entry ≡ ok found
    → (dir : ImageDir) × (entry ≡ some (image_directory dir))
unfolding read_image
read_image_ok goarch none found h = cc
read_image_ok goarch (some image_not_directory) found h = cc
read_image_ok goarch (some (image_directory dir)) found h = (dir, refl)

pub accept_image :
    (creator : Creator) (name image_name backend : Bytes) (options : VmCreateOptions)
    (images : Images) (accepted : Accepted)
    → accept creator name image_name backend options images ≡ ok accepted
    → Exists image_name images
unfolding accept
accept_image creator name image_name backend options images accepted h =
    let (_, _, r1) = >>=-eq-ok (guard (valid_name name) invalid_name) _ h in
    let (_, _, r2) = >>=-eq-ok (validate_create_options options) _ r1 in
    let (_, _, r3) = >>=-eq-ok (guard (valid_name image_name) invalid_name) _ r2 in
    let (chosen, _, r4) = >>=-eq-ok (choose_backend creator.goos backend) _ r3 in
    let (_, _, r5) = >>=-eq-ok (guard (is_backend chosen) unknown_backend) _ r4 in
    let (found, h6, _) = >>=-eq-ok (read_image creator.goarch (lookup image_name images)) _ r5 in
    read_image_ok creator.goarch (lookup image_name images) found h6

append_nil : (xs ys : List Bytes) → xs ++ ys ≡ [] → (xs ≡ []) × (ys ≡ [])
append_nil [] ys h = (refl, h)
append_nil (x ∷ xs) ys h = cc

entry_references_none :
    (image key : Bytes) (dir : VmDir) (metadata : VmMetadata)
    → entry_references image key (directory dir) ≡ ok []
    → dir.metadata ≡ readable metadata
    → str_eq metadata.image image ≡ false
unfolding entry_references reference_of
entry_references_none image key dir metadata h k = elim (Bool-cases (str_eq metadata.image image)) [
  | inl e ↦ cc (rw (k, e) at h)
  | inr e ↦ e
]

-- An image without references is the image of no VM.
collected_references_none :
    (image name : Bytes) (vms : Vms) (dir : VmDir) (metadata : VmMetadata)
    → collected_references image vms ≡ ok []
    → lookup name vms ≡ some (directory dir)
    → dir.metadata ≡ readable metadata
    → str_eq metadata.image image ≡ false
unfolding collected_references lookup
collected_references_none image name [] dir metadata h there k = cc
collected_references_none image name ((key, entry) ∷ vms) dir metadata h there k =
    let (here, h1, r1) = >>=-eq-ok (entry_references image key entry) _ h in
    let (rest, h2, r2) = >>=-eq-ok (collected_references image vms) _ r1 in
    let both : here ++ rest ≡ [] = cc in
    let (e1, e2) = append_nil here rest both in
    elim (Bool-cases (str_eq key name)) [
      | inl e ↦
          let same : entry ≡ directory dir = cc (rw e at there) in
          entry_references_none image key dir metadata (rw (sym same, h1, e1) refl) k
      | inr e ↦
          collected_references_none image name vms dir metadata (rw (h2, e2) refl) (rw e at there) k
    ]

collected_none :
    (image : Bytes) (vms : Vms)
    → image_references image vms ≡ ok []
    → collected_references image vms ≡ ok []
unfolding image_references
collected_none image vms h =
    let (references, collected, sorted) = >>=-eq-ok (collected_references image vms) _ h in
    let empty : sort_by (λ name. name) references ≡ [] = cc in
    collected ∙ ap ok (sort_by-nil (λ name. name) references empty)

str_eq_swap : (a b : Bytes) → str_eq a b ≡ false → str_eq b a ≡ false
str_eq_swap a b h = ground (arith, str_eq_iff a b, str_eq_iff b a)

Exists-store :
    (name other : Bytes) (dir : ImageDir) (images : Images)
    → Exists other images
    → Exists other (store name (image_directory dir) images)
Exists-store name other dir images (found, h) = elim (Bool-cases (str_eq name other)) [
  | inl e ↦
      let same = (str_eq_iff name other).0 e in
      (dir, rw (sym same) (lookup-store_self name (image_directory dir) images))
  | inr e ↦ (found, lookup-store_other name other (image_directory dir) images e ∙ h)
]

delete_image_dir_cases :
    (remover : ImageRemover) (name : Bytes) (references : List Bytes) (dir : ImageDir)
    (images : Images)
    → let after = (delete_image_dir remover name references false dir images).1 in
      (after ≡ images)
      ⊎ (references ≡ []) × (after ≡ erase name images)
      ⊎ ((left : ImageDir) × (after ≡ store name (image_directory left) images))
unfolding delete_image_dir
delete_image_dir_cases remover name (reference ∷ references) dir images = inl refl
delete_image_dir_cases remover name [] dir images = elim (Option-cases dir.size) [
  | inl e ↦ rw (delete_image_dir, e) (inl refl)
  | inr (size, e) ↦ elim (Bool-cases remover.removes) [
    | inl r ↦ rw (delete_image_dir, e, r) (inr (inl (refl, refl)))
    | inr r ↦ rw (delete_image_dir, e, r) (inr (inr (remover.left dir, refl)))
  ]
]

-- the images after a deletion that is not forced: as they were, without one that no VM refers to, or
-- with what is left of it
delete_image_cases :
    (remover : ImageRemover) (name : Bytes) (vms : Vms) (images : Images)
    → let after = (delete_image remover name false vms images).1 in
      (after ≡ images)
      ⊎ (image_references name vms ≡ ok []) × (after ≡ erase name images)
      ⊎ ((left : ImageDir) × (after ≡ store name (image_directory left) images))
unfolding delete_image delete_image_entry
delete_image_cases remover name vms images = elim (Result-cases (image_references name vms)) [
  | inr (_, e) ↦ rw (delete_image, e) (inl refl)
  | inl (references, e) ↦ elim (Bool-cases (valid_name name)) [
    | inr v ↦ rw (delete_image, e, v) (inl refl)
    | inl v ↦ elim (Option-cases (lookup name images)) [
      | inl f ↦ rw (delete_image, e, v, f) (inl refl)
      | inr (image_not_directory, f) ↦ rw (delete_image, e, v, f) (inl refl)
      | inr (image_directory dir, f) ↦
          elim (delete_image_dir_cases remover name references dir images) [
            | inl same ↦ rw (delete_image, e, v, f) (inl same)
            | inr (inl (none_left, after)) ↦
                rw (delete_image, e, v, f) (inr (inl (ap ok none_left, after)))
            | inr (inr left) ↦ rw (delete_image, e, v, f) (inr (inr left))
          ]
    ]
  ]
]

pub delete_image-exists :
    (remover : ImageRemover) (name : Bytes) (vms : Vms) (images : Images)
    → ImagesExist (record { vms = vms; images = images })
    → ImagesExist (record { vms = vms; images = (delete_image remover name false vms images).1 })
delete_image-exists remover name vms images inv = record {
  exists = λ vm dir metadata there k.
      let (found, h) = inv.exists vm dir metadata there k in
      elim (delete_image_cases remover name vms images) [
        | inl same ↦ rw same (found, h)
        | inr (inl (unused, after)) ↦
            let differs =
              collected_references_none name vm vms dir metadata (collected_none name vms unused)
                there k in
            (
              found,
              rw after
                  (lookup-erase_other name metadata.image images (str_eq_swap _ _ differs) ∙ h),
            )
        | inr (inr (left, after)) ↦
            rw after (Exists-store name metadata.image left images (found, h))
      ];
}
