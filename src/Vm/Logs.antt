-- ===== src/Vm/Logs.antt =====
-- The log files of a VM in internal/spind/vm/start/manager.go.
use spind.Prelude.{
  Bool, Bool-cases, Bytes, List, [], arith, codes, false, get_elem?, if◌then◌else◌, inl, inr,
  is_empty, not, refl, some, str_eq, str_eq_iff, str_eq_self, suc, true, zero, ℕ, ◌&&◌, ◌||◌, ◌∙◌,
  ◌∷◌, ◌≡◌, ◌⊎◌,
}
use spind.Snapshot.Prune.{has_name}
use spind.Snapshot.{join, cloud_hypervisor}
use spind.Vm.State.{VmState}

unfoldable pub first_non_empty : List Bytes → Bytes
first_non_empty [] = []
first_non_empty (value ∷ values) = if is_empty value then first_non_empty values else value

unfoldable pub log_candidates : Bytes → Bytes → VmState → List Bytes
log_candidates vm_dir backend state =
    if str_eq backend cloud_hypervisor
    then state.vmm_log_path
      ∷ state.serial_log_path
      ∷ state.event_log_path
      ∷ state.host_share_virtio_fs_log_path
      ∷ state.kubernetes_relay_log_path
      ∷ state.registry_relay_log_path
      ∷ join vm_dir (codes "cloud-hypervisor.log")
      ∷ join vm_dir (codes "serial.log")
      ∷ join vm_dir (codes "cloud-hypervisor-event.log")
      ∷ join vm_dir (codes "virtiofsd.log")
      ∷ []
    else state.kubernetes_relay_log_path
      ∷ state.registry_relay_log_path
      ∷ join vm_dir (codes "runner.log")
      ∷ []

-- the loop, with the paths it has `seen`
unfoldable pub unseen : List Bytes → List Bytes → List Bytes
unseen seen [] = []
unseen seen (path ∷ paths) =
    let skipped = unseen seen paths in
    let rest = unseen (path ∷ seen) paths in
    if is_empty path || has_name path seen then skipped else path ∷ rest

unfoldable pub vm_log_paths : Bytes → Bytes → VmState → List Bytes
vm_log_paths vm_dir backend state = unseen [] (log_candidates vm_dir backend state)

-- The three results of `vmNamedLogPaths`.
unfoldable pub serial_log_path : Bytes → Bytes → VmState → Bytes
serial_log_path vm_dir backend state =
    if str_eq backend cloud_hypervisor
    then first_non_empty (state.serial_log_path ∷ join vm_dir (codes "serial.log") ∷ [])
    else []

unfoldable pub backend_log_path : Bytes → Bytes → VmState → Bytes
backend_log_path vm_dir backend state =
    if str_eq backend cloud_hypervisor
    then first_non_empty (state.vmm_log_path ∷ join vm_dir (codes "cloud-hypervisor.log") ∷ [])
    else join vm_dir (codes "runner.log")

unfoldable pub event_log_path : Bytes → Bytes → VmState → Bytes
event_log_path vm_dir backend state =
    if str_eq backend cloud_hypervisor
    then first_non_empty
        (state.event_log_path ∷ join vm_dir (codes "cloud-hypervisor-event.log") ∷ [])
    else []

unseen_has :
    (path : Bytes) (seen paths : List Bytes)
    → is_empty path ≡ false
    → has_name path (unseen seen paths) ≡ (not (has_name path seen) && has_name path paths)
unfolding unseen has_name
unseen_has path seen [] h = ground arith
unseen_has path seen (x ∷ paths) h = elim (Bool-cases (str_eq x path)) [
  | inl e ↦
      let same = (str_eq_iff x path).0 e in
      rw (same, h)
        (ground (
          arith,
          str_eq_self path,
          unseen_has path seen paths h,
          unseen_has path (path ∷ seen) paths h,
        ))
  | inr e ↦ ground (arith, unseen_has path seen paths h, unseen_has path (x ∷ seen) paths h)
]

pub unseen_empty : (seen paths : List Bytes) → has_name [] (unseen seen paths) ≡ false
unfolding unseen has_name is_empty str_eq
unseen_empty seen [] = refl
unseen_empty seen ([] ∷ paths) = unseen_empty seen paths
unseen_empty seen ((c ∷ cs) ∷ paths) =
    ground (arith, unseen_empty seen paths, unseen_empty ((c ∷ cs) ∷ seen) paths)

unfoldable pub all_distinct : List Bytes → Bool
all_distinct [] = true
all_distinct (x ∷ xs) = not (has_name x xs) && all_distinct xs

pub unseen_distinct : (seen paths : List Bytes) → all_distinct (unseen seen paths) ≡ true
unfolding unseen has_name all_distinct
unseen_distinct seen [] = refl
unseen_distinct seen (x ∷ paths) = elim (Bool-cases (is_empty x)) [
  | inl e ↦ rw e (unseen_distinct seen paths)
  | inr e ↦ rw e (
      ground (
        arith,
        str_eq_self x,
        unseen_distinct seen paths,
        unseen_distinct (x ∷ seen) paths,
        unseen_has x (x ∷ seen) paths e,
      ))
]

pub join_not_empty : (dir name : Bytes) → is_empty (join dir name) ≡ false
unfolding is_empty
join_not_empty [] name = refl
join_not_empty (c ∷ cs) name = refl

first_non_empty_has :
    (a b : Bytes) (xs : List Bytes)
    → is_empty b ≡ false
    → has_name a xs ≡ true
    → has_name b xs ≡ true
    → has_name (first_non_empty (a ∷ b ∷ [])) xs ≡ true
unfolding first_non_empty
first_non_empty_has a b xs h p q = elim (Bool-cases (is_empty a)) [
  | inl e ↦ rw (e, h) q
  | inr e ↦ rw e p
]

has_name_nth :
    (i : ℕ) (x : Bytes) (xs : List Bytes) → get_elem? xs i ≡ some x → has_name x xs ≡ true
unfolding has_name
has_name_nth i x [] h = cc h
has_name_nth zero x (y ∷ xs) h = ground (arith, str_eq_self x)
has_name_nth (suc i) x (y ∷ xs) h = ground (arith, has_name_nth i x xs h)

module _ (vm_dir backend : Bytes) (state : VmState) where
  serial_listed :
      is_empty (serial_log_path vm_dir backend state) ≡ false
      → has_name (serial_log_path vm_dir backend state) (log_candidates vm_dir backend state) ≡ true
  unfolding serial_log_path log_candidates is_empty
  serial_listed h = elim (Bool-cases (str_eq backend cloud_hypervisor)) [
    | inl e ↦ rw e (
        first_non_empty_has state.serial_log_path _ _ (join_not_empty vm_dir (codes "serial.log"))
          (has_name_nth 1 _ _ refl) (has_name_nth 7 _ _ refl))
    | inr e ↦ cc (rw e at h)
  ]

  event_listed :
      is_empty (event_log_path vm_dir backend state) ≡ false
      → has_name (event_log_path vm_dir backend state) (log_candidates vm_dir backend state) ≡ true
  unfolding event_log_path log_candidates is_empty
  event_listed h = elim (Bool-cases (str_eq backend cloud_hypervisor)) [
    | inl e ↦ rw e (
        first_non_empty_has state.event_log_path _ _
          (join_not_empty vm_dir (codes "cloud-hypervisor-event.log")) (has_name_nth 2 _ _ refl)
          (has_name_nth 8 _ _ refl))
    | inr e ↦ cc (rw e at h)
  ]

  backend_listed :
      has_name (backend_log_path vm_dir backend state) (log_candidates vm_dir backend state) ≡ true
  unfolding backend_log_path log_candidates
  backend_listed = elim (Bool-cases (str_eq backend cloud_hypervisor)) [
    | inl e ↦ rw e (
        first_non_empty_has state.vmm_log_path _ _
          (join_not_empty vm_dir (codes "cloud-hypervisor.log")) (has_name_nth 0 _ _ refl)
          (has_name_nth 6 _ _ refl))
    | inr e ↦ rw e (has_name_nth 2 _ _ refl)
  ]

  -- the log paths that the status of the VM names
  abbrev pub Named : Bytes → Type 0
  Named path =
      (path ≡ serial_log_path vm_dir backend state)
      ⊎ (path ≡ backend_log_path vm_dir backend state)
      ⊎ (path ≡ event_log_path vm_dir backend state)

  -- The log paths of a VM are distinct and none is empty; a path that is not empty and is one of those
  -- that the status names is among them.
  pub vm_log_paths_lem :
      (path : Bytes)
      → is_empty path ≡ false
      → Named path
      → (has_name path (vm_log_paths vm_dir backend state) ≡ true)
        × (has_name [] (vm_log_paths vm_dir backend state) ≡ false)
        × (all_distinct (vm_log_paths vm_dir backend state) ≡ true)
  unfolding vm_log_paths has_name
  vm_log_paths_lem path h named =
      let paths = log_candidates vm_dir backend state in
      (
        unseen_has path [] paths h ∙ elim named [
          | inl e ↦ rw e (serial_listed (rw e at h))
          | inr (inl e) ↦ rw e backend_listed
          | inr (inr e) ↦ rw e (event_listed (rw e at h))
        ],
        unseen_empty [] paths,
        unseen_distinct [] paths,
      )
