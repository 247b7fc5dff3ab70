-- ===== src/Snapshot.antt =====
-- internal/spind/snapshot/store.go: what `Inspect` makes of the directory of a snapshot. The text
-- of the messages and the metadata of a kind cluster are left out.
use spind.Prelude.{
  Bool, Bytes, List, Option, [], codes, false, if◌then◌else◌, is_empty, map, none, not, some,
  str_eq, true, ℕ, ◌&&◌, ◌++◌, ◌==◌, ◌||◌, ◌∷◌,
}
pub mod Tested
pub mod Healthy
pub mod Prune
pub mod Pruning

pub record Metadata : Type 0 where
  pub source_vm : Bytes
  pub backend : Bytes
  pub created_at : Option ℕ
  pub cpu_count : ℕ
  pub memory_mib : ℕ
  pub exec_port : ℕ
  pub kernel_command_line : Bytes
  pub kind_ready : Bool
  pub k8s_distribution : Bytes
  pub disks : List Bytes

-- The directory: the size of each regular file by its path, what `ReadJSON` makes of the metadata,
-- and what `DirectorySize` returns.
pub record SnapshotDir : Type 0 where
  pub file_size : Bytes → Option ℕ
  pub metadata : Option Metadata
  pub directory_size : Option ℕ

-- The health, with what its message names.
pub data Health : Type 0 where
  healthy invalid_metadata : Health
  unsupported_backend missing_artifact : Bytes → Health

pub record ArtifactInfo : Type 0 where
  pub name : Bytes
  pub size : ℕ
  pub found : Bool

pub record Info : Type 0 where
  pub name : Bytes
  pub metadata : Option Metadata
  pub disk_size_bytes : ℕ
  pub state_size_bytes : ℕ
  pub total_size_bytes : ℕ
  pub health : Health
  pub kind_template : Bool
  pub artifacts : List ArtifactInfo

-- `filepath.Join`
abbrev pub join : Bytes → Bytes → Bytes
join dir name = dir ++ (b'/' ∷ name)

abbrev pub is_none : {A : Type 0} → Option A → Bool
is_none none = true
is_none (some a) = false

abbrev pub or_zero : Option ℕ → ℕ
or_zero none = 0
or_zero (some n) = n

unfoldable pub inspect_artifacts : SnapshotDir → List Bytes → List ArtifactInfo
inspect_artifacts dir [] = []
inspect_artifacts dir (name ∷ names) =
    record {
      name = name;
      size = or_zero (dir.file_size name);
      found = not (is_none (dir.file_size name));
    }
    ∷ inspect_artifacts dir names

abbrev pub common_artifacts : List Bytes
common_artifacts = codes "metadata.json" ∷ codes "ssh_key" ∷ codes "ssh_key.pub" ∷ []

abbrev pub virtualization_framework : Bytes
virtualization_framework = codes "virtualization-framework"

abbrev pub cloud_hypervisor : Bytes
cloud_hypervisor = codes "cloud-hypervisor"

abbrev pub kind_artifacts : List Bytes
kind_artifacts = codes "kind/metadata.json" ∷ codes "kind/kubeconfig.template" ∷ []

abbrev pub virtualization_framework_artifacts : List Bytes
virtualization_framework_artifacts =
    codes "vf/state.vzvmsave" ∷ codes "vf/kernel" ∷ codes "vf/initramfs" ∷ codes "vf/disk.img" ∷ []

abbrev pub cloud_hypervisor_artifacts : List Bytes
cloud_hypervisor_artifacts =
    codes "cloud-hypervisor/config.json"
    ∷ codes "cloud-hypervisor/memory-ranges"
    ∷ codes "cloud-hypervisor/state.json"
    ∷ codes "cloud-hypervisor/kernel"
    ∷ codes "cloud-hypervisor/initramfs"
    ∷ []

-- the disks of the metadata, or `disk.img`
abbrev pub disk_names : List Bytes → List Bytes
disk_names [] = codes "disk.img" ∷ []
disk_names (x ∷ xs) = x ∷ xs

abbrev pub backend_artifacts : Metadata → List Bytes
backend_artifacts metadata =
    if str_eq metadata.backend virtualization_framework
    then virtualization_framework_artifacts
    else if str_eq metadata.backend cloud_hypervisor
    then cloud_hypervisor_artifacts ++ map (join cloud_hypervisor) (disk_names metadata.disks)
    else []

abbrev pub artifact_names : Metadata → List Bytes
artifact_names metadata =
    common_artifacts
    ++ ((if metadata.kind_ready then kind_artifacts else []) ++ backend_artifacts metadata)

-- a field that is required is missing
abbrev pub lacks_field : Metadata → Bool
lacks_field metadata =
    is_empty metadata.backend
    || is_empty metadata.source_vm
    || is_none metadata.created_at
    || metadata.cpu_count == 0
    || metadata.memory_mib == 0

abbrev pub is_backend : Bytes → Bool
is_backend backend = str_eq backend virtualization_framework || str_eq backend cloud_hypervisor

-- The health before the artifacts are looked at; an unknown backend comes last.
abbrev pub metadata_health : Metadata → Health
metadata_health metadata =
    if not (is_backend metadata.backend)
    then unsupported_backend metadata.backend
    else if lacks_field metadata
    then invalid_metadata
    else healthy

abbrev pub worsen : Health → ArtifactInfo → Health
worsen healthy artifact = if artifact.found then healthy else missing_artifact artifact.name
worsen invalid_metadata artifact = invalid_metadata
worsen (unsupported_backend b) artifact = unsupported_backend b
worsen (missing_artifact n) artifact = missing_artifact n

unfoldable pub artifacts_health : Health → List ArtifactInfo → Health
artifacts_health health [] = health
artifacts_health health (x ∷ xs) = artifacts_health (worsen health x) xs

-- `filepath.Base` of a path that does not end in a slash
unfoldable pub base_from : Bytes → Bytes → Bytes
base_from last [] = last
base_from last (c ∷ cs) = if c == b'/' then base_from cs cs else base_from last cs

abbrev pub base : Bytes → Bytes
base path = base_from path path

-- the size of the first artifact, of those that the test picks, that is not empty
unfoldable pub size_of : (Bytes → Bool) → ℕ → List ArtifactInfo → ℕ
size_of test size [] = size
size_of test size (x ∷ xs) =
    size_of test (if test (base x.name) && size == 0 then x.size else size) xs

abbrev pub is_state : Bytes → Bool
is_state name = str_eq name (codes "state.vzvmsave") || str_eq name (codes "memory-ranges")

unfoldable pub inspect : SnapshotDir → Bytes → Info
inspect dir name = elim dir.metadata [
  | none ↦ record {
    name = name;
    metadata = none;
    disk_size_bytes = 0;
    state_size_bytes = 0;
    total_size_bytes = or_zero dir.directory_size;
    health = invalid_metadata;
    kind_template = false;
    artifacts = inspect_artifacts dir common_artifacts;
  }
  | some metadata ↦
      (let artifacts = inspect_artifacts dir (artifact_names metadata) in
        record {
          name = name;
          metadata = some metadata;
          disk_size_bytes = size_of (str_eq (codes "disk.img")) 0 artifacts;
          state_size_bytes = size_of is_state 0 artifacts;
          total_size_bytes = or_zero dir.directory_size;
          health = artifacts_health (metadata_health metadata) artifacts;
          kind_template =
              metadata.kind_ready
              && not (is_none (dir.file_size (codes "kind/kubeconfig.template")));
          artifacts = artifacts;
        })
]
