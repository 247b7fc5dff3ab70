-- ===== src/Vm/Delete/Deleted.antt =====
-- A deletion removes one VM and no other, and no VM that runs but by force.
use spind.Prelude.{
  Bool, Bool-cases, Bytes, Option, Option-cases, Result-cases, err, false, inl, inr, none, not, ok,
  refl, some, str_eq, true, ℕ, ◌&&◌, ◌≡◌, ◌⊎◌,
}
use spind.Name.{valid_name}
use spind.Vm.{readable}
use spind.Vm.State.{VmState}
use spind.Vm.Status.{is_running, read_state}
use spind.Vm.Store.{
  lookup, lookup-erase_self, lookup-erase_other, lookup-store_self, lookup-store_other, VmDir,
  not_directory, directory, Vms,
}
use spind.Vm.Cleanup.{Machine}
use spind.Vm.Stop.{delete, stop}
use spind.Vm.Delete.{
  DeleteError, vm_is_running, Remover, VmDeleteOptions, Deleting, remove_vm, measure_and_remove,
  unmerge_and_remove, stop_and_remove, delete_dir, put_back, delete_entry, delete_vm,
}

put_back_other :
    {W : Type 0} (machine : Machine W) (remover : Remover W) (name other : Bytes)
    (left : Option VmDir) (vms : Vms)
    → str_eq name other ≡ false
    → lookup other (put_back machine remover name left vms) ≡ lookup other vms
unfolding put_back
put_back_other machine remover name other none vms h = lookup-erase_other name other vms h
put_back_other machine remover name other (some dir) vms h =
    lookup-store_other name other (directory dir) vms h

module _ {W : Type 0} (machine : Machine W) (remover : Remover W) where
  -- A deletion, whatever its result, changes no other entry of the store than that of its VM.
  pub delete_vm_other :
      (vm_store runner_path name : Bytes) (options : VmDeleteOptions) (vms : Vms) (w : W)
      (other : Bytes)
      → str_eq name other ≡ false
      → lookup other (delete_vm machine remover vm_store runner_path name options vms w).1
        ≡ lookup other vms
  unfolding delete_vm delete_entry
  delete_vm_other vm_store runner_path name options vms w other h =
      elim (Bool-cases (valid_name name)) [
        | inr e ↦ rw e refl
        | inl e ↦ elim (Option-cases (lookup name vms)) [
          | inl none_there ↦ rw (e, none_there) refl
          | inr (not_directory, there) ↦ rw (e, there) refl
          | inr (directory dir, there) ↦
              rw (e, there) (put_back_other machine remover name other _ vms h)
        ]
      ]

  -- what a deletion has done where it has removed the directory, and where not
  abbrev Removed : Deleting machine remover → Type 0
  Removed out =
      ((size : ℕ) × (out.0 ≡ ok size) × (out.1 ≡ none))
      ⊎ ((e : DeleteError) × (dir : VmDir) × (out.0 ≡ err e) × (out.1 ≡ some dir))

  remove_vm-Removed :
      (name : Bytes) (size : ℕ) (dir : VmDir) (w : W)
      → Removed (remove_vm machine remover name size dir w)
  unfolding remove_vm
  remove_vm-Removed name size dir w = elim (Bool-cases (remover.remove_all name w).0) [
    | inl e ↦ rw e (inl (size, refl, refl))
    | inr e ↦ rw e (inr (_, _, refl, refl))
  ]

  measure_and_remove-Removed :
      (name : Bytes) (dir : VmDir) (w : W) → Removed (measure_and_remove machine remover name dir w)
  unfolding measure_and_remove
  measure_and_remove-Removed name dir w = elim (Option-cases (remover.directory_size dir w)) [
    | inl e ↦ rw (measure_and_remove, e) (inr (_, _, refl, refl))
    | inr (size, e) ↦ rw (measure_and_remove, e) (remove_vm-Removed name size dir w)
  ]

  unmerge_and_remove-Removed :
      (name : Bytes) (unmerge : Bool) (dir : VmDir) (w : W)
      → Removed (unmerge_and_remove machine remover name unmerge dir w)
  unfolding unmerge_and_remove
  unmerge_and_remove-Removed name false dir w = measure_and_remove-Removed name dir w
  unmerge_and_remove-Removed name true dir w =
      elim (Bool-cases (remover.unmerge_kubeconfig name w).0) [
        | inl e ↦ rw e (measure_and_remove-Removed name dir _)
        | inr e ↦ rw e (inr (_, _, refl, refl))
      ]

  stop_and_remove-Removed :
      (vm_store runner_path name : Bytes) (unmerge : Bool) (dir : VmDir) (w : W)
      → Removed (stop_and_remove machine remover vm_store runner_path name unmerge dir w)
  unfolding stop_and_remove
  stop_and_remove-Removed vm_store runner_path name unmerge dir w =
      let stopped =
        stop machine delete vm_store runner_path name (record { dir = dir; world = w }) in
      elim (Result-cases stopped.0) [
        | inl (_, e) ↦ rw (stop_and_remove, e) (unmerge_and_remove-Removed name unmerge _ _)
        | inr (_, e) ↦ rw (stop_and_remove, e) (inr (_, _, refl, refl))
      ]

  read_readable :
      (dir : VmDir) (state : VmState) → dir.state ≡ readable state → read_state dir.state ≡ ok state
  unfolding read_state
  read_readable dir state h = rw h refl

  delete_dir_cases :
      (vm_store runner_path name : Bytes) (options : VmDeleteOptions) (dir : VmDir)
      (state : VmState) (w : W)
      → read_state dir.state ≡ ok state
      → let deleted = delete_dir machine remover vm_store runner_path name options dir w in
        let refused = is_running (machine.kernel.probe w) state && not options.force in
        (refused ≡ false) × Removed deleted
        ⊎ (refused ≡ true) × (deleted ≡ (err vm_is_running, some dir, w))
  unfolding delete_dir
  delete_dir_cases vm_store runner_path name options dir state w h =
      elim (Bool-cases (is_running (machine.kernel.probe w) state)) [
        | inr e ↦
            rw (delete_dir, h, e)
              (inl (refl, unmerge_and_remove-Removed name options.unmerge_kubeconfig dir w))
        | inl e ↦ elim (Bool-cases options.force) [
          | inl e' ↦
              rw (delete_dir, h, e, e')
                (inl (
                  refl,
                  stop_and_remove-Removed vm_store runner_path name options.unmerge_kubeconfig dir
                      w,
                ))
          | inr e' ↦ rw (delete_dir, h, e, e') (inr (refl, refl))
        ]
      ]

  delete_vm-entry :
      (vm_store runner_path name : Bytes) (options : VmDeleteOptions) (vms : Vms) (w : W)
      (dir : VmDir)
      → valid_name name ≡ true
      → lookup name vms ≡ some (directory dir)
      → let deleted = delete_dir machine remover vm_store runner_path name options dir w in
        delete_vm machine remover vm_store runner_path name options vms w
        ≡ (deleted.0, put_back machine remover name deleted.1 vms, deleted.2)
  unfolding delete_vm delete_entry
  delete_vm-entry vm_store runner_path name options vms w dir v h = rw (v, h) refl

  -- Of a VM with a valid name and a state: a deletion that succeeds has removed it, and it was not
  -- running or the deletion was forced; a deletion of a VM that runs, not forced, is refused, and the
  -- VM and the host are as they were; and after any other error the VM is still in the store.
  pub delete_vm_lem :
      (vm_store runner_path name : Bytes) (options : VmDeleteOptions) (vms : Vms) (w : W)
      (dir : VmDir) (state : VmState)
      → valid_name name ≡ true
      → lookup name vms ≡ some (directory dir)
      → dir.state ≡ readable state
      → let (result, after, w') =
          delete_vm machine remover vm_store runner_path name options vms w in
        let refused = is_running (machine.kernel.probe w) state && not options.force in
        ((size : ℕ) × (result ≡ ok size) × (lookup name after ≡ none) × (refused ≡ false))
        ⊎ (result ≡ err vm_is_running)
          × (lookup name after ≡ some (directory dir))
          × (w' ≡ w)
          × (refused ≡ true)
        ⊎ ((e : DeleteError) × (left : VmDir) × (result ≡ err e)
            × (lookup name after ≡ some (directory left))
            × (refused ≡ false))
  unfolding put_back
  delete_vm_lem vm_store runner_path name options vms w dir state v there h =
      rw (delete_vm-entry vm_store runner_path name options vms w dir v there)
        (elim (delete_dir_cases vm_store runner_path name options dir state w
          (read_readable dir state h)) [
            | inr (refused, e) ↦
                rw e (inr (inl (refl, lookup-store_self name (directory dir) vms, refl, refused)))
            | inl (allowed, inl (size, e, gone)) ↦
                inl (size, e, rw gone (lookup-erase_self name vms), allowed)
            | inl (allowed, inr (reason, left, e, kept)) ↦ inr (
                inr
                  (reason, left, e, rw kept (lookup-store_self name (directory left) vms), allowed))
          ])
