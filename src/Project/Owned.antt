-- ===== src/Project/Owned.antt =====
-- What a project leaves alone: the VMs of the store that are not its own.
use spind.Prelude.{
  Bool, Bool-cases, Result-cases, err, false, inl, inr, refl, some, none, Option, ok, guard, true,
  ◌↔◌, str_eq, str_eq_iff, ◌≡◌, sym, Option-cases, Bytes, ap, ◌∙◌,
}
use spind.Vm.{readable, missing, unreadable, JsonFile, VmMetadata}
use spind.Vm.Store.{lookup, store, lookup-store_self, VmDir, VmEntry, not_directory, directory, Vms}
use spind.Vm.Cleanup.{Machine}
use spind.Vm.Delete.{Remover, delete_vm}
use spind.Vm.Delete.Deleted.{delete_vm_other}
use spind.Project.{
  ProjectError, check_owner, check_entry, validate_project_vm, project_conflict, delete_owned,
  delete_project_vm_if_exists, check_failed, forced, Project, MetadataWriter, marked, mark_dir,
  mark_vm_project,
}

abbrev pub owns : Bytes → VmEntry → Bool
owns root not_directory = false
owns root (directory dir) = elim dir.metadata [
  | readable metadata ↦ str_eq metadata.project_root root
  | missing ↦ false
  | unreadable ↦ false
]

owner_refused :
    (root : Bytes) (file : JsonFile VmMetadata)
    → (elim file [
      | readable metadata ↦ str_eq metadata.project_root root
      | missing ↦ false
      | unreadable ↦ false
    ])
      ≡ false
    → (e : ProjectError) × (check_owner root file ≡ err e)
unfolding check_owner
owner_refused root missing h = (_, refl)
owner_refused root unreadable h = (_, refl)
owner_refused root (readable metadata) h = (project_conflict metadata.project_root, rw h refl)

entry_refused :
    (root : Bytes) (entry : VmEntry)
    → owns root entry ≡ false
    → (e : ProjectError) × (check_entry root (some entry) ≡ err e)
unfolding check_entry
entry_refused root not_directory h = (_, refl)
entry_refused root (directory dir) h = owner_refused root dir.metadata h

validate_refused :
    (stat_fails : Bytes → Bool) (name root : Bytes) (vms : Vms) (entry : VmEntry)
    → lookup name vms ≡ some entry
    → owns root entry ≡ false
    → (e : ProjectError) × (validate_project_vm stat_fails name root vms ≡ err e)
unfolding validate_project_vm
validate_refused stat_fails name root vms entry there h = elim (Bool-cases (stat_fails name)) [
  | inl e ↦ (check_failed, rw e refl)
  | inr e ↦ let (why, refused) = entry_refused root entry h in (why, rw (e, there) refused)
]

module _ {W : Type 0} (machine : Machine W) (remover : Remover W) where
  owned_other :
      (vm_store runner_path name : Bytes) (there : VmEntry) (vms : Vms) (w : W) (other : Bytes)
      → str_eq name other ≡ false
      → lookup other (delete_owned machine remover vm_store runner_path name (some there) vms w).1
        ≡ lookup other vms
  unfolding delete_owned
  owned_other vm_store runner_path name there vms w other h =
      let deleted =
        delete_vm machine remover vm_store runner_path name (forced machine remover) vms w in
      let kept =
        delete_vm_other machine remover vm_store runner_path name (forced machine remover) vms w
          other h in
      elim (Result-cases deleted.0) [
        | inl (_, e) ↦ rw (delete_owned, e) kept
        | inr (_, e) ↦ rw (delete_owned, e) kept
      ]

  owned_kept :
      (vm_store runner_path name : Bytes) (vms : Vms) (w : W) (other : Bytes)
      → str_eq name other ≡ false
      → lookup other
          (delete_owned machine remover vm_store runner_path name (lookup name vms) vms w).1
        ≡ lookup other vms
  unfolding delete_owned
  owned_kept vm_store runner_path name vms w other h = elim (Option-cases (lookup name vms)) [
    | inl e ↦ rw (delete_owned, e) refl
    | inr (found, e) ↦
        rw (delete_owned, e) (owned_other vm_store runner_path name found vms w other h)
  ]

  -- A deletion of a project's VM, whatever its result, leaves every entry of the store that is not the
  -- project's own as it was, also under the name that is to be deleted.
  pub delete_project_vm_keeps :
      (stat_fails : Bytes → Bool) (vm_store runner_path name root : Bytes) (vms : Vms) (w : W)
      (other : Bytes) (entry : VmEntry)
      → lookup other vms ≡ some entry
      → owns root entry ≡ false
      → lookup other
          (delete_project_vm_if_exists machine remover stat_fails vm_store runner_path name root vms
            w).1
        ≡ some entry
  unfolding delete_project_vm_if_exists
  delete_project_vm_keeps stat_fails vm_store runner_path name root vms w other entry there h =
      elim (Result-cases (validate_project_vm stat_fails name root vms)) [
        | inr (_, refused) ↦ rw (delete_project_vm_if_exists, refused) there
        | inl (_, valid) ↦ elim (Bool-cases (str_eq name other)) [
          | inr differ ↦
              rw (delete_project_vm_if_exists, valid)
                (owned_kept vm_store runner_path name vms w other differ ∙ there)
          | inl same ↦
              let here = ap (λ n. lookup n vms) ((str_eq_iff name other).0 same) ∙ there in
              let (e, refused) = validate_refused stat_fails name root vms entry here h in
              cc (sym valid ∙ refused)
        ]
      ]

mark_dir_ok :
    (writer : MetadataWriter) (name : Bytes) (project : Project) (role : Bytes) (dir : VmDir)
    (file : JsonFile VmMetadata) (vms : Vms)
    → (mark_dir writer name project role dir file vms).0 ≡ ok tt
    → (metadata : VmMetadata) × ((mark_dir writer name project role dir file vms).1
        ≡ store name
            (directory (record dir { metadata = readable (marked project role metadata) }))
            vms)
unfolding mark_dir
mark_dir_ok writer name project role dir missing vms h = cc
mark_dir_ok writer name project role dir unreadable vms h = cc
mark_dir_ok writer name project role dir (readable metadata) vms h =
    elim (Bool-cases writer.writes) [
      | inl e ↦ (metadata, rw (mark_dir, e) refl)
      | inr e ↦ cc (rw (mark_dir, e) at h)
    ]

mark_entry_ok :
    (writer : MetadataWriter) (name : Bytes) (project : Project) (role : Bytes)
    (entry : Option VmEntry) (vms : Vms)
    → (mark_vm_project writer name project role entry vms).0 ≡ ok tt
    → (dir : VmDir) × (metadata : VmMetadata) × ((mark_vm_project writer name project role entry
          vms).1
        ≡ store name
            (directory (record dir { metadata = readable (marked project role metadata) }))
            vms)
unfolding mark_vm_project
mark_entry_ok writer name project role none vms h = cc
mark_entry_ok writer name project role (some not_directory) vms h = cc
mark_entry_ok writer name project role (some (directory dir)) vms h =
    let (metadata, stored) = mark_dir_ok writer name project role dir dir.metadata vms h in
    (dir, metadata, stored)

guard_iff : {E : Type 0} (test : Bool) (e : E) → (guard test e ≡ ok tt) ↔ (test ≡ true)
guard_iff true e = (λ h. refl, λ h. refl)
guard_iff false e = (λ h. cc, λ h. cc)

owner_iff :
    (project : Project) (role root : Bytes) (metadata : VmMetadata)
    → (check_owner root (readable (marked project role metadata)) ≡ ok tt) ↔ (project.root ≡ root)
unfolding check_owner
owner_iff project role root metadata =
    let (to, from) = guard_iff (str_eq project.root root) (project_conflict project.root) in
    let (eq_to, eq_from) = str_eq_iff project.root root in
    (λ h. eq_to (to h), λ h. from (eq_from h))

-- Where `os.Stat` does not fail on a VM that was marked for a project without an error, the VM passes
-- the validation for a root exactly if it is the root of that project.
pub mark_vm_project_lem :
    (writer : MetadataWriter) (stat_fails : Bytes → Bool) (name role root : Bytes)
    (project : Project) (vms : Vms)
    → (mark_vm_project writer name project role (lookup name vms) vms).0 ≡ ok tt
    → stat_fails name ≡ false
    → (validate_project_vm stat_fails name root
          (mark_vm_project writer name project role (lookup name vms) vms).1
        ≡ ok tt)
      ↔ (project.root ≡ root)
unfolding validate_project_vm check_entry
mark_vm_project_lem writer stat_fails name role root project vms h quiet =
    let (dir, metadata, stored) = mark_entry_ok writer name project role (lookup name vms) vms h in
    let entry = directory (record dir { metadata = readable (marked project role metadata) }) in
    rw (stored, validate_project_vm, quiet, lookup-store_self name entry vms)
      (owner_iff project role root metadata)
