-- ===== src/Vm/Listing.antt =====
-- `ListVMs` and `sortVMInfos` of internal/spind/vm/start/manager.go.
use spind.Prelude.{
  >>=-eq-ok, Bytes, List, Result, Result-cases, [], err, inl, inr, ok, refl, subst, sym, ◌>>=◌, ◌∷◌,
  ◌≡◌,
}
use mathlib.Core.List.{Perm}
use spind.Text.Order.{sort_by, sort_by-IsAscending, sort_by-perm, IsAscending}
use spind.Vm.{VmError}
use spind.Vm.Info.{VmInfo}
use spind.Vm.Status.{Host, vm_status}
use spind.Vm.Store.{VmDir, not_directory, directory, Vms}

-- what `os.ReadDir` finds for the store
pub data StoreListing : Type 0 where
  no_store store_unreadable : StoreListing
  entries : Vms → StoreListing

pub data ListError : Type 0 where
  read_store_failed : ListError
  vm_status_failed : VmError → ListError

-- `os.ReadDir` returns the entries in the order of their names.
unfoldable pub read_dir : Vms → Vms
read_dir vms = sort_by (λ entry. entry.0) vms

unfoldable pub sort_vm_infos : List VmInfo → List VmInfo
sort_vm_infos infos = sort_by (λ info. info.name) infos

module _ (host : Host) (vm_store : Bytes) where
  unfoldable pub listed_infos : Vms → Result VmError (List VmInfo)
  listed_infos [] = ok []
  listed_infos ((name, not_directory) ∷ vms) = listed_infos vms
  listed_infos ((name, directory dir) ∷ vms) = do
    info ← vm_status host vm_store name dir.metadata dir.state
    infos ← listed_infos vms
    ok (info ∷ infos)

  unfoldable pub sorted_list : Result VmError (List VmInfo) → Result ListError (List VmInfo)
  sorted_list (ok infos) = ok (sort_vm_infos infos)
  sorted_list (err e) = err (vm_status_failed e)

  unfoldable pub list_vms : StoreListing → Result ListError (List VmInfo)
  list_vms no_store = ok []
  list_vms store_unreadable = err read_store_failed
  list_vms (entries vms) = sorted_list (listed_infos (read_dir vms))

  -- The infos are those of the directories, one each; other entries are passed over.
  pub data Reports : Vms → List VmInfo → Type 0 where
    nothing : Reports [] []
    passed_over :
        {name : Bytes} {vms : Vms} {infos : List VmInfo}
        → Reports vms infos
        → Reports ((name, not_directory) ∷ vms) infos
    reported :
        {name : Bytes} {dir : VmDir} {vms : Vms} {info : VmInfo} {infos : List VmInfo}
        → vm_status host vm_store name dir.metadata dir.state ≡ ok info
        → Reports vms infos
        → Reports ((name, directory dir) ∷ vms) (info ∷ infos)

  listed_infos-Reports :
      (vms : Vms) (infos : List VmInfo) → listed_infos vms ≡ ok infos → Reports vms infos
  unfolding listed_infos
  listed_infos-Reports [] [] h = nothing
  listed_infos-Reports [] (info ∷ infos) h = cc
  listed_infos-Reports ((name, not_directory) ∷ vms) infos h =
      passed_over (listed_infos-Reports vms infos h)
  listed_infos-Reports ((name, directory dir) ∷ vms) infos h =
      let (info, here, r1) = >>=-eq-ok (vm_status host vm_store name dir.metadata dir.state) _ h in
      let (rest, there, r2) = >>=-eq-ok (listed_infos vms) _ r1 in
      let same : info ∷ rest ≡ infos = cc in
      subst (Reports ((name, directory dir) ∷ vms)) same
        (reported here (listed_infos-Reports vms rest there))

  Reports-listed_infos :
      {vms : Vms} {infos : List VmInfo} → Reports vms infos → listed_infos vms ≡ ok infos
  unfolding listed_infos
  Reports-listed_infos nothing = refl
  Reports-listed_infos (passed_over r) = Reports-listed_infos r
  Reports-listed_infos (reported e r) = rw (e, Reports-listed_infos r) refl

  -- If the VMs of a store are listed without an error, the list is in the order of the names, and it is
  -- made of the status of each directory of the store, one for each: the store's entries are gone
  -- through in the order of `os.ReadDir`, and those that are no directories are passed over.
  pub list_vms-Reports :
      (vms : Vms) (infos : List VmInfo)
      → list_vms (entries vms) ≡ ok infos
      → IsAscending (λ info. info.name) infos
        × Perm (read_dir vms) vms
        × ((found : List VmInfo) × Reports (read_dir vms) found × Perm infos found)
  unfolding list_vms read_dir sorted_list sort_vm_infos
  list_vms-Reports vms infos h = elim (Result-cases (listed_infos (read_dir vms))) [
    | inr (e, failed) ↦ cc (rw failed at h)
    | inl (found, e) ↦
        let sorted : sort_by (λ info. info.name) found ≡ infos = cc (rw e at h) in
        rw (sym sorted) (
          sort_by-IsAscending (λ info. info.name) found,
          sort_by-perm (λ entry. entry.0) vms,
          (
            found,
            listed_infos-Reports (read_dir vms) found e,
            sort_by-perm (λ info. info.name) found,
          ),
        )
  ]
