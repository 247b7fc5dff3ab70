-- ===== src/Vm/Delete/Left.antt =====
-- What a deletion leaves of the directory of its VM has the metadata that the VM had, or none.
use spind.Prelude.{
  Bool, Bool-cases, Bytes, Option-cases, Result-cases, ap, false, inl, inr, some, sym, true, ℕ, ◌∙◌,
  ◌≡◌,
}
use spind.Vm.{VmMetadata, readable}
use spind.Vm.Status.{is_running, read_state}
use spind.Vm.Store.{VmDir}
use spind.Vm.Cleanup.{Machine}
use spind.Vm.Stop.{delete, stop}
use spind.Vm.Stop.Metadata.{stop-metadata}
use spind.Vm.Delete.{
  Remover, VmDeleteOptions, Deleting, remove_vm, measure_and_remove, unmerge_and_remove,
  stop_and_remove, delete_dir,
}

-- What is left of a directory that cannot be removed has its metadata as they were, or none.
pub record LeavesMetadata {W : Type 0} (remover : Remover W) : Type 0 where
  pub leaves :
      (dir : VmDir) (metadata : VmMetadata)
      → (remover.left dir).metadata ≡ readable metadata
      → dir.metadata ≡ readable metadata

module _ {W : Type 0} (machine : Machine W) (remover : Remover W)
    (part : LeavesMetadata remover) where
  -- what is left of a directory has the metadata that it had, or none
  abbrev pub Leaves : VmDir → Deleting machine remover → Type 0
  Leaves dir out =
      (left : VmDir) (metadata : VmMetadata)
      → out.1 ≡ some left
      → left.metadata ≡ readable metadata
      → dir.metadata ≡ readable metadata

  same_leaves :
      (dir left : VmDir) (metadata : VmMetadata)
      → some dir ≡ some left
      → left.metadata ≡ readable metadata
      → dir.metadata ≡ readable metadata
  same_leaves dir left metadata e k = let same : dir ≡ left = cc in ap (λ d. d.metadata) same ∙ k

  remove_vm-Leaves :
      (name : Bytes) (size : ℕ) (dir : VmDir) (w : W)
      → Leaves dir (remove_vm machine remover name size dir w)
  unfolding remove_vm
  remove_vm-Leaves name size dir w left metadata e k =
      elim (Bool-cases (remover.remove_all name w).0) [
        | inl r ↦ cc (rw r at e)
        | inr r ↦
            part.leaves dir metadata (same_leaves (remover.left dir) left metadata (rw r at e) k)
      ]

  measure_and_remove-Leaves :
      (name : Bytes) (dir : VmDir) (w : W)
      → Leaves dir (measure_and_remove machine remover name dir w)
  unfolding measure_and_remove
  measure_and_remove-Leaves name dir w left metadata e k =
      elim (Option-cases (remover.directory_size dir w)) [
        | inl r ↦ same_leaves dir left metadata (rw (measure_and_remove, r) at e) k
        | inr (size, r) ↦
            remove_vm-Leaves name size dir w left metadata (rw (measure_and_remove, r) at e) k
      ]

  unmerge_and_remove-Leaves :
      (name : Bytes) (unmerge : Bool) (dir : VmDir) (w : W)
      → Leaves dir (unmerge_and_remove machine remover name unmerge dir w)
  unfolding unmerge_and_remove
  unmerge_and_remove-Leaves name false dir w left metadata e k =
      measure_and_remove-Leaves name dir w left metadata e k
  unmerge_and_remove-Leaves name true dir w left metadata e k =
      elim (Bool-cases (remover.unmerge_kubeconfig name w).0) [
        | inl r ↦ measure_and_remove-Leaves name dir _ left metadata (rw r at e) k
        | inr r ↦ same_leaves dir left metadata (rw r at e) k
      ]

  stop_and_remove-Leaves :
      (vm_store runner_path name : Bytes) (unmerge : Bool) (dir : VmDir) (w : W)
      → Leaves dir (stop_and_remove machine remover vm_store runner_path name unmerge dir w)
  unfolding stop_and_remove
  stop_and_remove-Leaves vm_store runner_path name unmerge dir w left metadata e k =
      let stopped =
        stop machine delete vm_store runner_path name (record { dir = dir; world = w }) in
      let kept =
        stop-metadata machine delete vm_store runner_path name (record { dir = dir; world = w }) in
      elim (Result-cases stopped.0) [
        | inl (_, r) ↦
            sym kept
            ∙ unmerge_and_remove-Leaves name unmerge _ _ left metadata
                (rw (stop_and_remove, r) at e) k
        | inr (_, r) ↦ sym kept ∙ same_leaves _ left metadata (rw (stop_and_remove, r) at e) k
      ]

  pub delete_dir-Leaves :
      (vm_store runner_path name : Bytes) (options : VmDeleteOptions) (dir : VmDir) (w : W)
      → Leaves dir (delete_dir machine remover vm_store runner_path name options dir w)
  unfolding delete_dir
  delete_dir-Leaves vm_store runner_path name options dir w left metadata e k =
      elim (Result-cases (read_state dir.state)) [
        | inr (_, r) ↦ same_leaves dir left metadata (rw (delete_dir, r) at e) k
        | inl (state, r) ↦ elim (Bool-cases (is_running (machine.kernel.probe w) state)) [
          | inr i ↦
              unmerge_and_remove-Leaves name _ dir w left metadata (rw (delete_dir, r, i) at e) k
          | inl i ↦ elim (Bool-cases options.force) [
            | inl f ↦
                stop_and_remove-Leaves vm_store runner_path name _ dir w left metadata
                  (rw (delete_dir, r, i, f) at e) k
            | inr f ↦ same_leaves dir left metadata (rw (delete_dir, r, i, f) at e) k
          ]
        ]
      ]
