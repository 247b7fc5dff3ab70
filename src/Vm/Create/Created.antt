-- ===== src/Vm/Create/Created.antt =====
-- What a creation leaves: the new VM with what was asked for, or the store as it was.
use spind.Prelude.{
  >>=-eq-ok, All, Bool-cases, Bytes, List, Option-cases, Result-cases, [], ap, err, false, inl, inr,
  none, ok, refl, str_eq, str_eq_self, subst, sym, true, ◌∙◌, ◌∷◌, ◌≡◌,
}
use spind.Snapshot.{join}
use spind.Snapshot.Prune.{has_name}
use spind.Vm.{VmMetadata, readable}
use spind.Vm.Store.{lookup, erase, store, VmDir, directory, Vms, Images}
use spind.Vm.Stop.{stopped_state}
use spind.Vm.Create.{
  CreateError, remove_all, make_dir, make_store, Creator, VmCreateOptions, CreateStep, Accepted,
  accept, required_file_names,
}
use spind.Vm.Create.Steps.{
  copy_files, write_keys, key_step, config_step, metadata_step, state_step, populate, describe,
  provide_keys, created_metadata,
}
use spind.Vm.Create.Kept.{
  attempt_ok, copy_files_ok, write_keys-Keeps, Keeps, inject_step_same, config_step_files,
  validate_step_same,
}
use spind.Vm.Create.Run.{empty_dir, clean_up_created, make_vm, create_from_image}

erase-none :
    {A : Type 0} (name : Bytes) (entries : List (Bytes × A))
    → lookup name entries ≡ none
    → erase name entries ≡ entries
unfolding lookup erase
erase-none name [] h = refl
erase-none name ((key, entry) ∷ entries) h = elim (Bool-cases (str_eq key name)) [
  | inl e ↦ cc (rw e at h)
  | inr e ↦ rw (e, erase-none name entries (rw e at h)) refl
]

erase-store :
    {A : Type 0} (name : Bytes) (entry : A) (entries : List (Bytes × A))
    → lookup name entries ≡ none
    → erase name (store name entry entries) ≡ entries
unfolding store erase
erase-store name entry entries h =
    rw (str_eq_self name, erase-none name entries h) (erase-none name entries h)

-- the directory of a VM with the metadata that the code makes
pub record IsCreated (creator : Creator) (name image_name vm_dir : Bytes) (accepted : Accepted)
    (options : VmCreateOptions) (dir : VmDir) : Type 0 where
  pub has_metadata :
      dir.metadata ≡ readable (created_metadata creator name image_name vm_dir accepted options)
  pub has_state : dir.state ≡ readable (stopped_state accepted.backend creator.now)
  pub has_files : All (λ n. has_name n dir.files ≡ true) (required_file_names accepted.image)

module _ (creator : Creator) (removable : creator.fails remove_all ≡ false) where
  clean_up_failed :
      (name : Bytes) (vms : Vms) (step : CreateStep) (e : CreateError)
      → lookup name vms ≡ none
      → (clean_up_created creator name vms step).0 ≡ err e
      → (clean_up_created creator name vms step).1 ≡ vms
  unfolding clean_up_created
  clean_up_failed name vms (ok dir) e free h = cc
  clean_up_failed name vms (err (reason, dir)) e free h =
      rw removable (erase-store name (directory dir) vms free)

  make_vm_failed :
      (name : Bytes) (vms : Vms) (step : CreateStep) (e : CreateError)
      → (make_vm creator name vms (lookup name vms) step).0 ≡ err e
      → (make_vm creator name vms (lookup name vms) step).1 ≡ vms
  unfolding make_vm
  make_vm_failed name vms step e h = elim (Option-cases (lookup name vms)) [
    | inr (_, there) ↦ rw there refl
    | inl free ↦ elim (Bool-cases (creator.fails make_dir)) [
      | inl k ↦ rw (free, k) refl
      | inr k ↦ rw (free, k) (clean_up_failed name vms step e free (rw (free, k) at h))
    ]
  ]

  -- Where a directory can be removed, a creation that fails leaves the store of VMs as it was.
  pub create_from_image_failed :
      (vm_store name image_name backend : Bytes) (options : VmCreateOptions) (images : Images)
      (vms : Vms) (e : CreateError)
      → (create_from_image creator vm_store name image_name backend options images vms).0 ≡ err e
      → (create_from_image creator vm_store name image_name backend options images vms).1 ≡ vms
  unfolding create_from_image
  create_from_image_failed vm_store name image_name backend options images vms e h =
      elim (Result-cases (accept creator name image_name backend options images)) [
        | inr (_, k) ↦ rw (create_from_image, k) refl
        | inl (accepted, k) ↦ elim (Bool-cases (creator.fails make_store)) [
          | inl full ↦ rw (create_from_image, k, full) refl
          | inr there ↦
              rw (create_from_image, k, there)
                (make_vm_failed name vms _ e (rw (create_from_image, k, there) at h))
        ]
      ]

All-mono :
    {P Q : Bytes → Type 0} (xs : List Bytes) → ((x : Bytes) → P x → Q x) → All P xs → All Q xs
All-mono [] h all = tt
All-mono (x ∷ xs) h (p, all) = (h x p, All-mono xs h all)

module _ (creator : Creator) where
  describe_ok :
      (metadata : VmMetadata) (backend : Bytes) (dir after : VmDir)
      → describe creator metadata backend dir ≡ ok after
      → record dir {
        metadata = readable metadata;
        state = readable (stopped_state backend creator.now);
      }
        ≡ after
  unfolding describe metadata_step state_step
  describe_ok metadata backend dir after h =
      let (described, h1, r1) = >>=-eq-ok (metadata_step creator metadata dir) _ h in
      let (stopped, h2, h3) = >>=-eq-ok (state_step creator _ described) _ r1 in
      let set : VmDir → VmDir =
        λ d. record d { state = readable (stopped_state backend creator.now) } in
      ap set (attempt_ok creator _ _ _ _ described h1)
      ∙ attempt_ok creator _ _ _ _ stopped h2
      ∙ validate_step_same creator backend stopped after h3

  provide_keys-Keeps :
      (accepted : Accepted) (keys : Bytes × Bytes) (dir after : VmDir)
      → provide_keys creator accepted keys dir ≡ ok after
      → Keeps creator dir after
  unfolding provide_keys
  provide_keys-Keeps accepted keys dir after h n k =
      let (keyed, h1, h2) = >>=-eq-ok (write_keys creator dir) _ h in
      subst (λ d. has_name n d.files ≡ true)
        (inject_step_same creator accepted.image keyed after h2)
        (write_keys-Keeps creator dir keyed h1 n k)

  populate_ok :
      (name image_name vm_dir : Bytes) (accepted : Accepted) (options : VmCreateOptions)
      (empty dir : VmDir)
      → populate creator name image_name vm_dir accepted options empty ≡ ok dir
      → IsCreated creator name image_name vm_dir accepted options dir
  unfolding populate
  populate_ok name image_name vm_dir accepted options empty dir h =
      let names = required_file_names accepted.image in
      let (copied, h1, r1) =
        >>=-eq-ok (copy_files creator accepted.image_dir.files names empty) _ h in
      let (keys, _, r2) = >>=-eq-ok (key_step creator copied) _ r1 in
      let (provided, h3, r3) = >>=-eq-ok (provide_keys creator accepted keys copied) _ r2 in
      let (configured, h4, h5) =
        >>=-eq-ok (config_step creator name vm_dir accepted options keys.1 provided) _ r3 in
      let e = describe_ok _ accepted.backend configured dir h5 in
      record {
        has_metadata = sym (ap (λ d. d.metadata) e);
        has_state = sym (ap (λ d. d.state) e);
        has_files =
            All-mono names
              (λ n k.
                subst (λ files. has_name n files ≡ true)
                  (config_step_files creator name vm_dir accepted options keys.1 provided configured
                      h4
                    ∙ ap (λ d. d.files) e)
                  (provide_keys-Keeps accepted keys copied provided h3 n k))
              (copy_files_ok creator accepted.image_dir.files names empty copied h1).1;
      }

  make_vm_ok :
      (name : Bytes) (vms : Vms) (step : CreateStep)
      → (make_vm creator name vms (lookup name vms) step).0 ≡ ok tt
      → (lookup name vms ≡ none)
        × (dir : VmDir) × (step ≡ ok dir)
        × ((make_vm creator name vms (lookup name vms) step).1 ≡ store name (directory dir) vms)
  unfolding make_vm clean_up_created
  make_vm_ok name vms step h = elim (Option-cases (lookup name vms)) [
    | inr (_, there) ↦ cc (rw there at h)
    | inl free ↦ elim (Bool-cases (creator.fails make_dir)) [
      | inl k ↦ cc (rw (free, k) at h)
      | inr k ↦ elim (Result-cases step) [
        | inl (dir, e) ↦ (free, dir, e, rw (free, k, e) refl)
        | inr (_, e) ↦ cc (rw (free, k, e) at h)
      ]
    ]
  ]

  pub create_from_image-IsCreated :
      (vm_store name image_name backend : Bytes) (options : VmCreateOptions) (images : Images)
      (vms : Vms)
      → (create_from_image creator vm_store name image_name backend options images vms).0 ≡ ok tt
      → (accepted : Accepted) × (dir : VmDir) × (accept creator name image_name backend options
            images
          ≡ ok accepted)
        × (lookup name vms ≡ none)
        × ((create_from_image creator vm_store name image_name backend options images vms).1
            ≡ store name (directory dir) vms)
        × IsCreated creator name image_name (join vm_store name) accepted options dir
  unfolding create_from_image
  create_from_image-IsCreated vm_store name image_name backend options images vms h =
      elim (Result-cases (accept creator name image_name backend options images)) [
        | inr (_, k) ↦ cc (rw (create_from_image, k) at h)
        | inl (accepted, k) ↦ elim (Bool-cases (creator.fails make_store)) [
          | inl full ↦ cc (rw (create_from_image, k, full) at h)
          | inr there ↦
              let (free, dir, populated, e) =
                make_vm_ok name vms _ (rw (create_from_image, k, there) at h) in
              (
                accepted,
                dir,
                k,
                free,
                rw (create_from_image, k, there) e,
                populate_ok name image_name (join vm_store name) accepted options empty_dir dir
                    populated,
              )
        ]
      ]
