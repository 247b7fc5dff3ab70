-- ===== src/Snapshot/Healthy.antt =====
-- Which snapshots `Inspect` calls healthy.
use spind.Prelude.{
  if◌then◌else◌, All-append, codes, map, is_empty, str_eq, str_eq_iff, arith, ◌<◌, ◌++◌, All,
  Bool-cases, Bytes, List, [], false, inl, inr, refl, some, true, ◌↔◌, ◌∷◌, ◌≡◌,
}
use spind.Snapshot.{
  Metadata, SnapshotDir, healthy, is_backend, inspect, is_none, join, cloud_hypervisor,
  virtualization_framework, cloud_hypervisor_artifacts, virtualization_framework_artifacts,
  disk_names, backend_artifacts, common_artifacts, kind_artifacts,
}
use spind.Snapshot.Tested.{Passes, inspect-Passes, Passes-inspect}

-- a file of the snapshot
abbrev pub There : SnapshotDir → Bytes → Type 0
There dir name = is_none (dir.file_size name) ≡ false

-- the files of a backend
pub data HasBackend (dir : SnapshotDir) (metadata : Metadata) : Type 0 where
  for_virtualization_framework :
      metadata.backend ≡ codes "virtualization-framework"
      → There dir (codes "vf/state.vzvmsave")
      → There dir (codes "vf/kernel")
      → There dir (codes "vf/initramfs")
      → There dir (codes "vf/disk.img")
      → HasBackend dir metadata
  for_cloud_hypervisor :
      metadata.backend ≡ codes "cloud-hypervisor"
      → There dir (codes "cloud-hypervisor/config.json")
      → There dir (codes "cloud-hypervisor/memory-ranges")
      → There dir (codes "cloud-hypervisor/state.json")
      → There dir (codes "cloud-hypervisor/kernel")
      → There dir (codes "cloud-hypervisor/initramfs")
      → (metadata.disks ≡ [] → There dir (codes "cloud-hypervisor/disk.img"))
      → All (λ disk. There dir (codes "cloud-hypervisor/" ++ disk)) metadata.disks
      → HasBackend dir metadata

-- The metadata can be read and has its fields, and the files are there that all snapshots have, that
-- a snapshot of a Kubernetes VM has, and that the backend has.
pub record IsComplete (dir : SnapshotDir) : Type 0 where
  pub metadata : Metadata
  pub readable : dir.metadata ≡ some metadata
  pub source_vm_set : is_empty metadata.source_vm ≡ false
  pub created_at_set : is_none metadata.created_at ≡ false
  pub has_cpus : 0 < metadata.cpu_count
  pub has_memory : 0 < metadata.memory_mib
  pub metadata_there : There dir (codes "metadata.json")
  pub key_there : There dir (codes "ssh_key")
  pub public_key_there : There dir (codes "ssh_key.pub")
  pub kind_there :
      metadata.kind_ready ≡ true
      → There dir (codes "kind/metadata.json") × There dir (codes "kind/kubeconfig.template")
  pub backend_there : HasBackend dir metadata

disks_iff :
    (dir : SnapshotDir) (disks : List Bytes)
    → All (There dir) (map (join cloud_hypervisor) (disk_names disks)) ↔ (
        (disks ≡ [] → There dir (codes "cloud-hypervisor/disk.img"))
        × All (λ disk. There dir (codes "cloud-hypervisor/" ++ disk)) disks)
disks_iff dir [] = (λ h. (λ e. h.0, tt), λ h. (h.0 refl, tt))
disks_iff dir (disk ∷ disks) =
    let (to, from) = later disks in (λ h. (λ e. cc, (h.0, to h.1)), λ h. (h.1.0, from h.1.1))
  where
    later :
        (ds : List Bytes)
        → All (There dir) (map (join cloud_hypervisor) ds)
          ↔ All (λ disk. There dir (codes "cloud-hypervisor/" ++ disk)) ds
    later [] = (λ h. tt, λ h. tt)
    later (d ∷ ds) = let (to, from) = later ds in (λ h. (h.0, to h.1), λ h. (h.0, from h.1))

backend_to :
    (dir : SnapshotDir) (m : Metadata)
    → is_backend m.backend ≡ true
    → All (There dir) (backend_artifacts m)
    → HasBackend dir m
backend_to dir m known h = elim (Bool-cases (str_eq m.backend virtualization_framework)) [
  | inl e ↦
      let (state, (kernel, (initramfs, (disk, _)))) : All (There dir)
          virtualization_framework_artifacts =
        rw e at h in
      for_virtualization_framework ((str_eq_iff _ _).0 e) state kernel initramfs disk
  | inr e ↦ elim (Bool-cases (str_eq m.backend cloud_hypervisor)) [
    | inr e' ↦ cc (rw (e, e') at known)
    | inl e' ↦
        let (own, disks) =
          (All-append (There dir) cloud_hypervisor_artifacts _).0 (rw (e, e') at h) in
        let (config, (memory, (state, (kernel, (initramfs, _))))) = own in
        let (one, all) = (disks_iff dir m.disks).0 disks in
        for_cloud_hypervisor ((str_eq_iff _ _).0 e') config memory state kernel initramfs one all
  ]
]

backend_from :
    (dir : SnapshotDir) (m : Metadata)
    → HasBackend dir m
    → (is_backend m.backend ≡ true)
      × (is_empty m.backend ≡ false)
      × All (There dir) (backend_artifacts m)
unfolding str_eq is_empty
backend_from dir m (for_virtualization_framework e a b c d) =
    rw e (refl, refl, (a, (b, (c, (d, tt)))))
backend_from dir m (for_cloud_hypervisor e a b c d f one all) =
    rw e (refl, refl, (a, (b, (c, (d, (f, (disks_iff dir m.disks).1 (one, all)))))))

abbrev kind_part : Metadata → List Bytes
kind_part metadata = if metadata.kind_ready then kind_artifacts else []

kind_to :
    (dir : SnapshotDir) (m : Metadata)
    → All (There dir) (kind_part m)
    → m.kind_ready ≡ true
    → There dir (codes "kind/metadata.json") × There dir (codes "kind/kubeconfig.template")
kind_to dir m h k = let there : All (There dir) kind_artifacts = rw k at h in (there.0, there.1.0)

kind_from :
    (dir : SnapshotDir) (m : Metadata)
    → (m.kind_ready ≡ true
        → There dir (codes "kind/metadata.json") × There dir (codes "kind/kubeconfig.template"))
    → All (There dir) (kind_part m)
kind_from dir m h = elim (Bool-cases m.kind_ready) [
  | inl e ↦ let (a, b) = h e in rw e (a, (b, tt))
  | inr e ↦ rw e tt
]

Passes-IsComplete : (dir : SnapshotDir) → Passes dir → IsComplete dir
Passes-IsComplete dir p =
    let m = p.metadata in
    let full = p.fields_set in
    let (common, rest) = (All-append (There dir) common_artifacts _).0 p.all_found in
    let (kind, backend) = (All-append (There dir) (kind_part m) (backend_artifacts m)).0 rest in
    record {
      metadata = m;
      readable = p.readable;
      source_vm_set = ground (arith, full);
      created_at_set = ground (arith, full);
      has_cpus = ground (arith, full);
      has_memory = ground (arith, full);
      metadata_there = common.0;
      key_there = common.1.0;
      public_key_there = common.1.1.0;
      kind_there = kind_to dir m kind;
      backend_there = backend_to dir m p.known_backend backend;
    }

IsComplete-Passes : (dir : SnapshotDir) → IsComplete dir → Passes dir
IsComplete-Passes dir c =
    let m = c.metadata in
    let source_vm_set = c.source_vm_set in
    let created_at_set = c.created_at_set in
    let has_cpus = c.has_cpus in
    let has_memory = c.has_memory in
    let (known, backend_set, backend) = backend_from dir m c.backend_there in
    record {
      metadata = m;
      readable = c.readable;
      fields_set = ground (arith, source_vm_set, created_at_set, has_cpus, has_memory, backend_set);
      known_backend = known;
      all_found = (All-append (There dir) common_artifacts _).1 (
        (c.metadata_there, (c.key_there, (c.public_key_there, tt))),
        (All-append (There dir) (kind_part m) (backend_artifacts m)).1
            (kind_from dir m c.kind_there, backend),
      );
    }

-- A snapshot is healthy exactly when its metadata can be read and names a source VM, a time, CPUs,
-- memory and a known backend, and the files are there: the metadata and both keys; for Kubernetes
-- the template and its metadata; on Virtualization.framework the saved state, kernel, initramfs and
-- disk; on Cloud Hypervisor the configuration, memory, state, kernel, initramfs and every disk of
-- the metadata, or `disk.img` where it names none.
pub inspect_healthy_iff :
    (dir : SnapshotDir) (name : Bytes) → ((inspect dir name).health ≡ healthy) ↔ IsComplete dir
inspect_healthy_iff dir name = (
  λ h. Passes-IsComplete dir (inspect-Passes dir name h),
  λ c. Passes-inspect dir name (IsComplete-Passes dir c),
)
