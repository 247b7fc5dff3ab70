-- ===== src/Vm.antt =====
-- internal/spind/vmstore and internal/spind/vm/start/manager.go: the stores of VMs and of images.
-- A store is the list of the entries of its directory, each under its name. A file that holds JSON
-- is missing, unreadable, or the value that the code reads from it.
use spind.Prelude.{Bool, Bytes, Result, codes, guard, if◌then◌else◌, is_empty, ℕ, ◌==◌}
use spind.Name.{valid_name}
use spind.Snapshot.{virtualization_framework}
pub mod State
pub mod Info
pub mod Logs
pub mod Json
pub mod Status
pub mod Reported
pub mod Process
pub mod Config
pub mod Cleanup
pub mod Create
pub mod Store
pub mod Delete
pub mod Images
pub mod Invariant
pub mod Merged
pub mod Listing
pub mod Stop

pub record VmMetadata : Type 0 where
  pub name : Bytes
  pub image : Bytes
  pub image_type : Bytes
  pub backend : Bytes
  pub architecture : Bytes
  pub exec_user : Bytes
  pub created_at : ℕ
  pub project_name : Bytes
  pub project_root : Bytes
  pub project_role : Bytes
  pub from_snapshot : Bool
  pub source_snapshot : Bytes
  pub restore_state_path : Bytes
  pub cpu_count : ℕ
  pub memory_mib : ℕ
  pub exec_port : ℕ
  pub kind_ready : Bool
  pub k8s_distribution : Bytes
  pub kubeconfig_path : Bytes

pub data JsonFile (A : Type 0) : Type 0 where
  missing unreadable : JsonFile A
  readable : A → JsonFile A

pub data VmError : Type 0 where
  invalid_name not_found already_exists not_running : VmError
  read_metadata_failed read_state_failed : VmError

-- `validateStoreName`
abbrev pub validate_store_name : Bytes → Result VmError (Unit {0})
validate_store_name name = guard (valid_name name) invalid_name

abbrev pub or_else : Bytes → Bytes → Bytes
or_else value default = if is_empty value then default else value

abbrev pub or_default : ℕ → ℕ → ℕ
or_default value default = if value == 0 then default else value

-- `runtime.GOARCH` is an argument.
unfoldable pub hydrate_vm_metadata : Bytes → VmMetadata → VmMetadata
hydrate_vm_metadata goarch metadata = record metadata {
  backend = or_else metadata.backend virtualization_framework;
  architecture = or_else metadata.architecture goarch;
  exec_user = or_else metadata.exec_user (codes "spind");
  cpu_count = or_default metadata.cpu_count 2;
  memory_mib = or_default metadata.memory_mib 1024;
  exec_port = or_default metadata.exec_port 10222;
}
