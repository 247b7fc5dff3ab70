-- ===== src/Vm/Create/Kept.antt =====
-- Each step of a creation keeps the files that were there before it.
use spind.Prelude.{
  >>=-eq-ok, All, Bool-cases, Bytes, List, [], ap, arith, codes, inl, inr, is_empty, not, ok,
  str_eq, str_eq_self, subst, sym, true, ◌&&◌, ◌∷◌, ◌≡◌,
}
use spind.Snapshot.{cloud_hypervisor, virtualization_framework}
use spind.Snapshot.Prune.{has_name}
use spind.Vm.Config.{ImageMetadata}
use spind.Vm.Store.{VmDir}
use spind.Vm.Create.{
  CreateError, copy_failed, CreateCall, copy_file, Creator, VmCreateOptions, Accepted,
}
use spind.Vm.Create.Steps.{
  attempt, copy_file_step, copy_files, write_named, identified, hypervisor_step, runner_step,
  write_keys, inject_step, config_step, validate_step,
}

module _ (creator : Creator) where
  pub attempt_ok :
      (call : CreateCall) (e : CreateError) (before after dir : VmDir)
      → attempt creator call e before after ≡ ok dir
      → after ≡ dir
  unfolding attempt
  attempt_ok call e before after dir h = elim (Bool-cases (creator.fails call)) [
    | inl k ↦ cc (rw k at h)
    | inr k ↦ cc (rw k at h)
  ]

  -- the files of a directory after a step, which keeps those that were there
  abbrev pub Keeps : VmDir → VmDir → Type 0
  Keeps before after = (n : Bytes) → has_name n before.files ≡ true → has_name n after.files ≡ true

  with_file_keeps :
      (name n : Bytes) (files : List Bytes)
      → has_name n files ≡ true
      → has_name n (name ∷ files) ≡ true
  unfolding has_name
  with_file_keeps name n files h = ground arith

  copy_file_step_ok :
      (image_files : List Bytes) (name : Bytes) (dir after : VmDir)
      → copy_file_step creator image_files name dir ≡ ok after
      → record dir { files = name ∷ dir.files } ≡ after
  unfolding copy_file_step
  copy_file_step_ok image_files name dir after h = elim (Bool-cases (has_name name image_files)) [
    | inr e ↦ cc (rw e at h)
    | inl e ↦ elim (Bool-cases (has_name name dir.files)) [
      | inl e' ↦ cc (rw (e, e') at h)
      | inr e' ↦ attempt_ok (copy_file name) copy_failed dir _ after (rw (e, e') at h)
    ]
  ]

  pub copy_files_ok :
      (image_files names : List Bytes) (dir after : VmDir)
      → copy_files creator image_files names dir ≡ ok after
      → Keeps dir after × All (λ n. has_name n after.files ≡ true) names
  unfolding copy_files has_name
  copy_files_ok image_files [] dir after h =
      let same : dir ≡ after = cc in (λ n k. subst (λ d. has_name n d.files ≡ true) same k, tt)
  copy_files_ok image_files (name ∷ names) dir after h =
      let (copied, first, rest) = >>=-eq-ok (copy_file_step creator image_files name dir) _ h in
      let (kept, there) = copy_files_ok image_files names copied after rest in
      let e = ap (λ d. d.files) (copy_file_step_ok image_files name dir copied first) in
      (
        λ n k. kept n (rw (sym e) (with_file_keeps name n dir.files k)),
        (kept name (rw (sym e) (ground (arith, str_eq_self name))), there),
      )

  pub write_keys-Keeps : (dir after : VmDir) → write_keys creator dir ≡ ok after → Keeps dir after
  unfolding write_keys
  write_keys-Keeps dir after h n k =
      let (private, first, second) = >>=-eq-ok (write_named creator (codes "ssh_key") dir) _ h in
      let e = attempt_ok _ _ _ _ private first in
      let e' = attempt_ok _ _ _ _ after second in
      subst (λ d. has_name n d.files ≡ true) e'
        (with_file_keeps (codes "ssh_key.pub") n private.files (
          subst (λ d. has_name n d.files ≡ true) e
            (with_file_keeps (codes "ssh_key") n dir.files k)))

  pub inject_step_same :
      (image : ImageMetadata) (dir after : VmDir)
      → inject_step creator image dir ≡ ok after
      → dir ≡ after
  unfolding inject_step
  inject_step_same image dir after h =
      elim (Bool-cases (is_empty image.ssh_authorized_key_command_line_param)) [
        | inl e ↦ attempt_ok _ _ _ _ after (rw e at h)
        | inr e ↦ cc (rw e at h)
      ]

  pub config_step_files :
      (name vm_dir : Bytes) (accepted : Accepted) (options : VmCreateOptions) (public_key : Bytes)
      (dir after : VmDir)
      → config_step creator name vm_dir accepted options public_key dir ≡ ok after
      → dir.files ≡ after.files
  unfolding config_step hypervisor_step runner_step
  config_step_files name vm_dir accepted options public_key dir after h =
      elim (Bool-cases (str_eq accepted.backend cloud_hypervisor)) [
        | inl e ↦ ap (λ d. d.files) (attempt_ok _ _ _ _ after (rw e at h))
        | inr e ↦
            let (config, _, written) = >>=-eq-ok (identified creator _ dir) _ (rw e at h) in
            ap (λ d. d.files) (attempt_ok _ _ _ _ after written)
      ]

  pub validate_step_same :
      (backend : Bytes) (dir after : VmDir)
      → validate_step creator backend dir ≡ ok after
      → dir ≡ after
  unfolding validate_step
  validate_step_same backend dir after h =
      elim (Bool-cases
        (str_eq backend virtualization_framework && not (is_empty creator.runner_path))) [
          | inl e ↦ attempt_ok _ _ _ _ after (rw e at h)
          | inr e ↦ cc (rw e at h)
        ]
