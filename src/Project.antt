-- ===== src/Project.antt =====
-- internal/spind/up/run.go: the project of a `spind.yaml`, and which VMs of the store are its own. A
-- VM belongs to the project whose root its metadata names.
pub mod Owned
pub mod Names
use spind.Prelude.{
  Bool, Bytes, List, Option, Result, codes, err, guard, if◌then◌else◌, is_empty, none, ok, some,
  str_eq, true, false, ◌++◌, ◌>>=◌, ◌>>◌, ◌||◌,
}
use spind.Text.Words.{trim_space}
use spind.Name.{valid_name}
use spind.Vm.{VmMetadata, JsonFile, missing, unreadable, readable, or_else}
use spind.Vm.Store.{lookup, store, VmDir, VmEntry, not_directory, directory, Vms}
use spind.Vm.Cleanup.{Machine}
use spind.Vm.Delete.{DeleteError, Remover, VmDeleteOptions, delete_vm}

pub record ProjectConfig : Type 0 where
  pub name : Bytes
  pub image : Bytes
  pub k8s : Bytes
  pub setup : List Bytes

pub record Project : Type 0 where
  pub root : Bytes
  pub config_path : Bytes
  pub name : Bytes
  pub image : Bytes
  pub k8s : Bytes
  pub setup : List Bytes
  pub vm_name : Bytes
  pub provisioning_name : Bytes
  pub snapshot_name : Bytes

pub data ProjectError : Type 0 where
  config_missing config_unreadable invalid_project_name invalid_image_name : ProjectError
  unsupported_k8s check_failed not_managed metadata_not_read metadata_not_written : ProjectError
  used_by : Bytes → ProjectError
  delete_failed : DeleteError → ProjectError

abbrev pub supported_k8s : Bytes → Bool
supported_k8s k8s = is_empty k8s || (str_eq k8s (codes "kind") || str_eq k8s (codes "k3d"))

unfoldable pub parsed_config : JsonFile ProjectConfig → Result ProjectError ProjectConfig
parsed_config missing = err config_missing
parsed_config unreadable = err config_unreadable
parsed_config (readable config) = ok config

-- The root is found already; `base_name` is what `filepath.Base` makes of it.
unfoldable pub load_project :
    Bytes → Bytes → Bytes → JsonFile ProjectConfig → Result ProjectError Project
load_project root base_name config_path file = do
  config ← parsed_config file
  guard (valid_name (or_else (trim_space config.name) base_name)) invalid_project_name
  guard (valid_name (or_else (trim_space config.image) (codes "docker"))) invalid_image_name
  guard (supported_k8s (trim_space config.k8s)) unsupported_k8s
  ok (record {
    root = root;
    config_path = config_path;
    name = or_else (trim_space config.name) base_name;
    image = or_else (trim_space config.image) (codes "docker");
    k8s = trim_space config.k8s;
    setup = config.setup;
    vm_name = or_else (trim_space config.name) base_name;
    provisioning_name = or_else (trim_space config.name) base_name ++ codes "-provisioning";
    snapshot_name = or_else (trim_space config.name) base_name ++ codes "-provisioned";
  })

unfoldable pub project_conflict : Bytes → ProjectError
project_conflict existing_root =
    if is_empty existing_root then not_managed else used_by existing_root

unfoldable pub check_owner : Bytes → JsonFile VmMetadata → Result ProjectError (Unit {0})
check_owner root missing = err not_managed
check_owner root unreadable = err not_managed
check_owner root (readable metadata) =
    guard (str_eq metadata.project_root root) (project_conflict metadata.project_root)

unfoldable pub check_entry : Bytes → Option VmEntry → Result ProjectError (Unit {0})
check_entry root none = ok tt
check_entry root (some not_directory) = err not_managed
check_entry root (some (directory dir)) = check_owner root dir.metadata

-- `stat_fails` are the names whose `os.Stat` fails for another reason than a missing file.
unfoldable pub validate_project_vm :
    (Bytes → Bool) → Bytes → Bytes → Vms → Result ProjectError (Unit {0})
validate_project_vm stat_fails name root vms =
    if stat_fails name then err check_failed else check_entry root (lookup name vms)

-- `WriteMetadata`: whether it succeeds, and what is left of the file where not
pub record MetadataWriter : Type 0 where
  pub writes : Bool
  pub left : JsonFile VmMetadata

abbrev pub marked : Project → Bytes → VmMetadata → VmMetadata
marked project role metadata = record metadata {
  project_name = project.name;
  project_root = project.root;
  project_role = role;
}

unfoldable pub mark_dir :
    MetadataWriter
    → Bytes
    → Project
    → Bytes
    → VmDir
    → JsonFile VmMetadata
    → Vms
    → Result ProjectError (Unit {0}) × Vms
mark_dir writer name project role dir missing vms = (err metadata_not_read, vms)
mark_dir writer name project role dir unreadable vms = (err metadata_not_read, vms)
mark_dir writer name project role dir (readable metadata) vms =
    let written = directory (record dir { metadata = readable (marked project role metadata) }) in
    if writer.writes then (ok tt, store name written vms) else (
      err metadata_not_written,
      store name (directory (record dir { metadata = writer.left })) vms,
    )

unfoldable pub mark_vm_project :
    MetadataWriter
    → Bytes
    → Project
    → Bytes
    → Option VmEntry
    → Vms
    → Result ProjectError (Unit {0}) × Vms
mark_vm_project writer name project role none vms = (err metadata_not_read, vms)
mark_vm_project writer name project role (some not_directory) vms = (err metadata_not_read, vms)
mark_vm_project writer name project role (some (directory dir)) vms =
    mark_dir writer name project role dir dir.metadata vms

module _ {W : Type 0} (machine : Machine W) (remover : Remover W) where
  abbrev pub forced : VmDeleteOptions
  forced = record { force = true; unmerge_kubeconfig = false }

  unfoldable pub delete_owned :
      Bytes → Bytes → Bytes → Option VmEntry → Vms → W → Result ProjectError (Unit {0}) × Vms × W
  delete_owned vm_store runner_path name none vms w = (ok tt, vms, w)
  delete_owned vm_store runner_path name (some entry) vms w =
      let (deleted, vms', w') = delete_vm machine remover vm_store runner_path name forced vms w in
      elim deleted [ ok _ ↦ (ok tt, vms', w') | err e ↦ (err (delete_failed e), vms', w') ]

  unfoldable pub delete_project_vm_if_exists :
      (Bytes → Bool)
      → Bytes
      → Bytes
      → Bytes
      → Bytes
      → Vms
      → W
      → Result ProjectError (Unit {0}) × Vms × W
  delete_project_vm_if_exists stat_fails vm_store runner_path name root vms w =
      let deleted = delete_owned vm_store runner_path name (lookup name vms) vms w in
      elim (validate_project_vm stat_fails name root vms) [
        | err e ↦ (err e, vms, w)
        | ok _ ↦ deleted
      ]
