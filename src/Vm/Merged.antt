-- ===== src/Vm/Merged.antt =====
-- `KubeconfigMerge` of internal/spind/vm/start/kubeconfig_merge.go: the status of a VM, the choice of
-- the target and the merge of the VM's kubeconfig into it.
use spind.Prelude.{
  >>=-eq-ok, Bytes, List, Result, Result-cases, arith, codes, err, false, guard, guard-true,
  if◌then◌else◌, inl, inr, is_empty, ok, str_eq, str_eq_iff, subst, sym, true, ◌++◌, ◌≡◌, ◌>>=◌,
  ◌>>◌,
}
use spind.Snapshot.{join}
use spind.Snapshot.Prune.{has_name}
use spind.Kubeconfig.{MergeOptions, KubeconfigError}
use spind.Kubeconfig.Files.{Files, System, lock_path, merge_file}
use spind.Kubeconfig.Atomic.{MakesTemp}
use spind.Kubeconfig.Merge.{MergedFile, merge_file-MergedFile}
use spind.Kubeconfig.Paths.{
  PathError, Environment, candidate_paths, path_for_merge, path_for_merge_lem, Stat, is_file,
  is_directory, is_not_there, stat_fails, stat_path,
}
use spind.Vm.{VmMetadata, VmError, JsonFile, readable, hydrate_vm_metadata}
use spind.Vm.State.{VmState}
use spind.Vm.Info.{VmInfo}
use spind.Vm.Status.{Host, is_running, vm_status, kubernetes_support, info_of}
use spind.Vm.Reported.{running, vm_status-tests, vm_status-info_of}

pub data VmMergeError : Type 0 where
  status_failed : VmError → VmMergeError
  vm_not_running not_kind_ready source_not_found source_is_directory source_stat_failed :
      VmMergeError
  no_target : PathError → VmMergeError
  merge_failed : KubeconfigError → VmMergeError

pub record VmMergeOptions : Type 0 where
  pub kubeconfig_path : Bytes
  pub merge : MergeOptions

unfoldable pub lift : {E A : Type 0} → (E → VmMergeError) → Result E A → Result VmMergeError A
lift wrap (ok a) = ok a
lift wrap (err e) = err (wrap e)

unfoldable pub source_path : VmInfo → Bytes
source_path info =
    if is_empty info.kubernetes_kubeconfig_path
    then join info.vm_dir (codes "kubeconfig")
    else info.kubernetes_kubeconfig_path

unfoldable pub check_source : Stat → Result VmMergeError (Unit {0})
check_source is_file = ok tt
check_source is_directory = err source_is_directory
check_source is_not_there = err source_not_found
check_source stat_fails = err source_stat_failed

abbrev pub entry_name : Bytes → Bytes
entry_name name = codes "spind-" ++ name

module _ {V : Type 0} (os : System V) (env : Environment) (host : Host) where
  -- the source and the target, where there is something to merge
  unfoldable pub plan_merge :
      VmMergeOptions → Files → Result VmError VmInfo → Result VmMergeError (Bytes × Bytes)
  plan_merge options files status = do
    info ← lift status_failed status
    guard (str_eq info.status running) vm_not_running
    guard (str_eq info.kubernetes_support (codes "supported")) not_kind_ready
    found ← check_source (stat_path os files (source_path info))
    paths ← lift no_target (candidate_paths env options.kubeconfig_path)
    target ← lift no_target (path_for_merge os files paths)
    ok (source_path info, target)

  unfoldable pub merge_plan :
      VmMergeOptions
      → Bytes
      → Files
      → Result VmMergeError (Bytes × Bytes)
      → Result VmMergeError Bytes × Files
  merge_plan options name files (err e) = (err e, files)
  merge_plan options name files (ok (source, target)) =
      let (merged, files') = merge_file os target source (entry_name name) options.merge files in
      elim merged [ ok _ ↦ (ok target, files') | err e ↦ (err (merge_failed e), files') ]

  unfoldable pub kubeconfig_merge :
      Bytes
      → Bytes
      → VmMergeOptions
      → JsonFile VmMetadata
      → JsonFile VmState
      → Files
      → Result VmMergeError Bytes × Files
  kubeconfig_merge vm_store name options metadata_file state_file files =
      let status = vm_status host vm_store name metadata_file state_file in
      merge_plan options name files (plan_merge options files status)

lift_ok :
    {E A : Type 0} (wrap : E → VmMergeError) (r : Result E A) (a : A)
    → lift wrap r ≡ ok a
    → r ≡ ok a
unfolding lift
lift_ok wrap (ok b) a h = cc
lift_ok wrap (err e) a h = cc

kubernetes_supported :
    (metadata : VmMetadata)
    → str_eq (kubernetes_support metadata) (codes "supported") ≡ true
    → metadata.kind_ready ≡ true
unfolding kubernetes_support str_eq
kubernetes_supported metadata h = ground arith

supports :
    (host : Host) (vm_store name : Bytes) (metadata : VmMetadata) (state : VmState) (info : VmInfo)
    → vm_status host vm_store name (readable metadata) (readable state) ≡ ok info
    → str_eq info.kubernetes_support (codes "supported") ≡ true
    → metadata.kind_ready ≡ true
unfolding info_of hydrate_vm_metadata
supports host vm_store name metadata state info status h =
    kubernetes_supported (hydrate_vm_metadata host.goarch metadata)
      (rw (sym (vm_status-info_of host vm_store name metadata state status)) at h)

module _ {V : Type 0} (os : System V) (env : Environment) (host : Host) (temp : MakesTemp os) where
  -- what a merge has found, where it goes on to the files
  pub record IsPlan (options : VmMergeOptions) (files : Files) (info : VmInfo)
      (source target : Bytes) : Type 0 where
    pub runs : info.status ≡ running
    pub supported : str_eq info.kubernetes_support (codes "supported") ≡ true
    pub paths : List Bytes
    pub candidates : candidate_paths env options.kubeconfig_path ≡ ok paths
    pub among : has_name target paths ≡ true
    pub from_info : source ≡ source_path info

  plan_merge_ok :
      (options : VmMergeOptions) (files : Files) (info : VmInfo) (source target : Bytes)
      → plan_merge os env host options files (ok info) ≡ ok (source, target)
      → IsPlan options files info source target
  unfolding plan_merge lift
  plan_merge_ok options files info source target h =
      let (_, h1, r1) = >>=-eq-ok (guard (str_eq info.status running) vm_not_running) _ h in
      let (_, h2, r2) =
        >>=-eq-ok (guard (str_eq info.kubernetes_support (codes "supported")) not_kind_ready) _
          r1 in
      let (_, _, r3) = >>=-eq-ok (check_source (stat_path os files (source_path info))) _ r2 in
      let (paths, h4, r4) =
        >>=-eq-ok (lift no_target (candidate_paths env options.kubeconfig_path)) _ r3 in
      let (chosen, h5, r5) = >>=-eq-ok (lift no_target (path_for_merge os files paths)) _ r4 in
      let same : chosen ≡ target = cc in
      record {
        runs = (str_eq_iff info.status running).0 (guard-true _ vm_not_running _ h1);
        supported = guard-true _ not_kind_ready _ h2;
        paths = paths;
        candidates = lift_ok no_target (candidate_paths env options.kubeconfig_path) paths h4;
        among =
            subst (λ t. has_name t paths ≡ true) same
              (path_for_merge_lem os files paths chosen
                (lift_ok no_target (path_for_merge os files paths) chosen h5)).0;
        from_info = cc;
      }

  merge_plan_ok :
      (options : VmMergeOptions) (name : Bytes) (files : Files) (source target chosen : Bytes)
      → (merge_plan os env host options name files (ok (source, chosen))).0 ≡ ok target
      → str_eq (lock_path target) source ≡ false
      → (chosen ≡ target)
        × MergedFile os target source
            (entry_name name)
            options.merge
            files
            (merge_plan os env host options name files (ok (source, chosen))).1
  unfolding merge_plan
  merge_plan_ok options name files source target chosen h free =
      let merged = merge_file os chosen source (entry_name name) options.merge files in
      elim (Result-cases merged.0) [
        | inr (_, e) ↦ cc (rw (merge_plan, e) at h)
        | inl (_, e) ↦
            let same : chosen ≡ target = cc (rw (merge_plan, e) at h) in
            let free' = subst (λ t. str_eq (lock_path t) source ≡ false) (sym same) free in
            let done =
              merge_file-MergedFile os temp chosen source (entry_name name) options.merge files
                free' e in
            (
              same,
              rw (merge_plan, e)
                  (subst
                    (λ t. MergedFile os t source (entry_name name) options.merge files merged.1)
                    same done),
            )
      ]

  planned_err :
      (options : VmMergeOptions) (name : Bytes) (files : Files) (target : Bytes) (e : VmMergeError)
      → (merge_plan os env host options name files (err e)).0 ≡ ok target
      → ⊥
  unfolding merge_plan
  planned_err options name files target e h = cc

  -- Where temporary files have names of their own, the status of the VM can be read and its kubeconfig
  -- is not the lock file of the target: if `KubeconfigMerge` returns a target without an error, the VM
  -- runs, its process is there and it is made for Kubernetes; the target is one of the candidate paths;
  -- and its file holds the merge of the VM's kubeconfig under the name of the VM behind `spind-`.
  pub kubeconfig_merge-MergedFile :
      (vm_store name : Bytes) (options : VmMergeOptions) (metadata : VmMetadata) (state : VmState)
      (files : Files) (info : VmInfo) (target : Bytes)
      → vm_status host vm_store name (readable metadata) (readable state) ≡ ok info
      → str_eq (lock_path target) (source_path info) ≡ false
      → (kubeconfig_merge os env host vm_store name options
          (readable metadata)
          (readable state)
          files).0
        ≡ ok target
      → (is_running host.probe state ≡ true)
        × (metadata.kind_ready ≡ true)
        × ((paths : List Bytes) × (candidate_paths env options.kubeconfig_path ≡ ok paths)
            × (has_name target paths ≡ true))
        × MergedFile os target
            (source_path info)
            (entry_name name)
            options.merge
            files
            (kubeconfig_merge os env host vm_store name options
              (readable metadata)
              (readable state)
              files).1
  unfolding kubeconfig_merge
  kubeconfig_merge-MergedFile vm_store name options metadata state files info target status free h =
      elim (Result-cases (plan_merge os env host options files (ok info))) [
        | inr (_, e) ↦ elim (planned_err options name files target _ (rw (status, e) at h)) [ ]
        | inl (plan, e) ↦
            let p = plan_merge_ok options files info plan.0 plan.1 e in
            let free' = subst (λ s. str_eq (lock_path target) s ≡ false) (sym p.from_info) free in
            let (same, merged) =
              merge_plan_ok options name files plan.0 target plan.1 (rw (status, e) at h) free' in
            (
              (vm_status-tests host vm_store name metadata state info status).0.0 p.runs,
              supports host vm_store name metadata state info status p.supported,
              (p.paths, p.candidates, subst (λ t. has_name t p.paths ≡ true) same p.among),
              rw (status, e)
                  (subst
                    (λ s.
                      MergedFile os target s (entry_name name) options.merge files
                        (merge_plan os env host options name files (ok plan)).1)
                    p.from_info merged),
            )
      ]
