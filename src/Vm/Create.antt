-- ===== src/Vm/Create.antt =====
-- `CreateFromImageWithOptions` of internal/spind/vm/start/manager.go, with `ReadMetadata`,
-- `RequiredFileNames` and `CopyRequiredFiles` of internal/spind/image/store.go. What the host does is
-- a parameter, the `Creator`: which calls fail, the keys, the clock, random values and the runner. A
-- step that fails gives the error and the directory as the step leaves it.
pub mod Steps
pub mod Run
pub mod Kept
pub mod Created
pub mod Asked
pub mod Requested
use spind.Prelude.{
  Bool, Bytes, List, Option, Result, [], codes, err, false, guard, if◌then◌else◌, is_empty, map,
  none, not, ok, some, str_eq, ℕ, ◌==◌, ◌∷◌, ◌>>=◌, ◌>>◌,
}
use spind.Text.Decimal.{Signed, plus, minus}
use spind.Name.{valid_name}
use spind.Snapshot.{join, cloud_hypervisor, virtualization_framework, is_backend}
use spind.Snapshot.Prune.{has_name}
use spind.Vm.{VmMetadata, JsonFile, missing, unreadable, readable, or_else}
use spind.Vm.State.{VmState}
use spind.Vm.Config.{DiskMetadata, ImageMetadata, RunnerConfig, HypervisorConfig}
use spind.Vm.Config.CommandLine.{apply_image_authorized_key_command_line}
use spind.Vm.Config.Made.{Random, runner_config, cloud_hypervisor_config}
use spind.Vm.Stop.{stopped_state}
use spind.Vm.Store.{
  lookup, erase, store, VmDir, VmEntry, directory, Vms, ImageDir, ImageEntry, image_directory,
  image_not_directory, Images,
}

pub data CreateError : Type 0 where
  invalid_name cpu_not_positive memory_not_positive unsupported_system unknown_backend : CreateError
  image_not_found read_image_failed make_store_failed already_exists make_dir_failed : CreateError
  image_file_not_found copy_failed key_failed write_failed inject_failed : CreateError
  machine_id_failed runner_refused : CreateError

pub data CreateCall : Type 0 where
  make_store make_dir inject_key remove_all validate_runner : CreateCall
  copy_file write_file : Bytes → CreateCall

pub record Creator : Type 0 where
  pub fails : CreateCall → Bool
  pub goos : Bytes
  pub goarch : Bytes
  pub now : ℕ
  pub key_pair : Option (Bytes × Bytes)
  pub base64 : Bytes → Bytes
  pub random : Random
  pub runner_path : Bytes
  pub runner_machine_identifier : Option Bytes
  -- what is left of a directory that cannot be removed
  pub left : VmDir → VmDir

-- Zero where nothing was asked for.
pub record VmCreateOptions : Type 0 where
  pub cpu_count : Signed
  pub memory_mib : Signed

abbrev pub CreateStep : Type 0
CreateStep = Result (CreateError × VmDir) VmDir

abbrev pub is_negative : Signed → Bool
is_negative (plus n) = false
is_negative (minus n) = not (n == 0)

unfoldable pub validate_create_options : VmCreateOptions → Result CreateError (Unit {0})
validate_create_options options = do
  guard (not (is_negative options.cpu_count)) cpu_not_positive
  guard (not (is_negative options.memory_mib)) memory_not_positive

-- A negative option was refused before.
unfoldable pub apply_option : Signed → ℕ → ℕ
apply_option (plus n) value = if n == 0 then value else n
apply_option (minus n) value = value

unfoldable pub default_backend : Bytes → Result CreateError Bytes
default_backend goos =
    if str_eq goos (codes "linux")
    then ok cloud_hypervisor
    else if str_eq goos (codes "darwin")
    then ok virtualization_framework
    else err unsupported_system

unfoldable pub choose_backend : Bytes → Bytes → Result CreateError Bytes
choose_backend goos backend = if is_empty backend then default_backend goos else ok backend

unfoldable pub hydrate_image : Bytes → ImageMetadata → ImageMetadata
hydrate_image goarch image = record image {
  architecture = or_else image.architecture goarch;
  exec_user = or_else image.exec_user (codes "spind");
}

unfoldable pub metadata_of :
    Bytes → ImageDir → JsonFile ImageMetadata → Result CreateError (ImageMetadata × ImageDir)
metadata_of goarch dir missing = err image_not_found
metadata_of goarch dir unreadable = err read_image_failed
metadata_of goarch dir (readable image) = ok (hydrate_image goarch image, dir)

-- `ReadMetadata` of the image of that name
unfoldable pub read_image :
    Bytes → Option ImageEntry → Result CreateError (ImageMetadata × ImageDir)
read_image goarch none = err image_not_found
read_image goarch (some image_not_directory) = err read_image_failed
read_image goarch (some (image_directory dir)) = metadata_of goarch dir dir.metadata

abbrev pub disk_files : List DiskMetadata → List Bytes
disk_files [] = codes "disk.img" ∷ []
disk_files (disk ∷ disks) = map (λ d. d.name) (disk ∷ disks)

unfoldable pub required_file_names : ImageMetadata → List Bytes
required_file_names image = codes "kernel" ∷ codes "initramfs" ∷ disk_files image.disks

-- what a creation starts from, once its arguments are accepted
pub record Accepted : Type 0 where
  pub image : ImageMetadata
  pub image_dir : ImageDir
  pub backend : Bytes

unfoldable pub accept :
    Creator → Bytes → Bytes → Bytes → VmCreateOptions → Images → Result CreateError Accepted
accept creator name image_name backend options images = do
  guard (valid_name name) invalid_name
  validate_create_options options
  guard (valid_name image_name) invalid_name
  chosen ← choose_backend creator.goos backend
  guard (is_backend chosen) unknown_backend
  found ← read_image creator.goarch (lookup image_name images)
  ok (record {
    image = record found.0 { name = or_else found.0.name image_name };
    image_dir = found.1;
    backend = chosen;
  })
