-- ===== src/Tests/Stores.antt =====
-- A store with a VM that runs and its image, and a VM that is made beside it.
use spind.Prelude.{
  Bool-cases, Bytes, Result, [], ap, codes, err, false, inl, inr, is_empty, none, not, ok, refl,
  some, str_eq, subst, true, ℕ, ◌&&◌, ◌∙◌, ◌∷◌, ◌≡◌, ◌⊎◌,
}
use spind.Name.{valid_name, all_bytes, is_name_byte, is_alphanumeric}
use spind.Text.Decimal.{plus}
use spind.Vm.{readable}
use spind.Vm.Status.{is_running}
use spind.Vm.Config.{ImageMetadata}
use spind.Vm.Store.{ImageDir, lookup, store, VmDir, directory, Vms, image_directory, Images}
use spind.Vm.Create.{
  CreateError, already_exists, Creator, accept, read_image, metadata_of, hydrate_image,
  required_file_names, validate_create_options, choose_backend, default_backend, VmCreateOptions,
}
use spind.Snapshot.Prune.{has_name}
use spind.Vm.Create.Steps.{
  populate, copy_files, copy_file_step, attempt, key_step, provide_keys, write_keys, inject_step,
  config_step, hypervisor_step, describe, metadata_step, state_step, validate_step,
}
use spind.Vm.Create.Run.{make_vm, create_from_image, clean_up_created}
use spind.Vm.Create.Created.{create_from_image_failed}
use spind.Vm.Create.Requested.{IsRequested, create_from_image_ok}
use spind.Vm.Delete.{
  DeleteError, vm_is_running, Remover, VmDeleteOptions, delete_vm, delete_image, ImageRemover,
}
use spind.Vm.Delete.Deleted.{delete_vm_lem}
use spind.Vm.Images.{Stores, Exists, ImagesExist}
use spind.Vm.Invariant.{creates, deletes_image, Reaches, here, later, Reaches-ImagesExist}
use spind.Tests.Vms.{Box, box, probe, machine, dir, state, metadata}

abbrev image : ImageMetadata
image = record {
  name = [];
  image_type = [];
  architecture = [];
  created_at = 1;
  kernel_command_line = [];
  exec_user = [];
  cpu_count = 0;
  memory_mib = 512;
  ssh_authorized_key_command_line_param = [];
  disks = [];
}

abbrev images : Images
images =
    (
      codes "docker",
      image_directory (record {
        metadata = readable image;
        files = codes "kernel" ∷ codes "initramfs" ∷ codes "disk.img" ∷ [];
        size = some 9;
      }),
    )
    ∷ []

abbrev pub vms : Vms
vms = (codes "a", directory dir) ∷ []

abbrev creator : Creator
creator = record {
  fails = λ call. false;
  goos = codes "linux";
  goarch = codes "amd64";
  now = 5;
  key_pair = some (codes "private", codes "public");
  base64 = λ s. s;
  random = record { machine_identifier = []; guest_mac = [] };
  runner_path = [];
  runner_machine_identifier = none;
  left = λ d. d;
}

abbrev options : VmCreateOptions
options = record { cpu_count = plus 4; memory_mib = plus 0 }

abbrev creation : Bytes → Result CreateError (Unit {0}) × Vms
creation name = create_from_image creator (codes "/v") name (codes "docker") [] options images vms

creation_ok : (creation (codes "b")).0 ≡ ok tt
unfolding create_from_image accept valid_name all_bytes is_name_byte is_alphanumeric str_eq
    validate_create_options choose_backend default_backend read_image metadata_of hydrate_image
    lookup make_vm clean_up_created populate copy_files copy_file_step attempt key_step provide_keys
    write_keys inject_step config_step hypervisor_step describe metadata_step state_step
    validate_step required_file_names is_empty has_name
creation_ok = refl

create_from_image_ok_example :
    (made : VmDir) × (image_dir : ImageDir) × (taken : ImageMetadata) × (lookup
        (codes "docker")
        images
      ≡ some (image_directory image_dir))
    × (image_dir.metadata ≡ readable taken)
    × (lookup (codes "b") vms ≡ none)
    × ((creation (codes "b")).1 ≡ store (codes "b") (directory made) vms)
    × IsRequested creator (codes "b") (codes "docker") [] options taken made
create_from_image_ok_example =
    create_from_image_ok creator (codes "/v") (codes "b") (codes "docker") [] options images vms
      creation_ok

creation_taken : (creation (codes "a")).0 ≡ err already_exists
unfolding create_from_image accept valid_name all_bytes is_name_byte is_alphanumeric str_eq
    validate_create_options choose_backend default_backend read_image metadata_of hydrate_image
    lookup make_vm clean_up_created populate copy_files copy_file_step attempt key_step provide_keys
    write_keys inject_step config_step hypervisor_step describe metadata_step state_step
    validate_step required_file_names is_empty has_name
creation_taken = refl

create_from_image_failed_example : (creation (codes "a")).1 ≡ vms
create_from_image_failed_example =
    create_from_image_failed creator refl (codes "/v") (codes "a") (codes "docker") [] options
      images vms already_exists creation_taken

abbrev pub remover : Remover Box
remover = record {
  unmerge_kubeconfig = λ name w. (true, w);
  directory_size = λ d w. some 9;
  remove_all = λ name w. (true, w);
  left = λ d. d;
}

abbrev delete_options : VmDeleteOptions
delete_options = record { force = true; unmerge_kubeconfig = false }

delete_vm_lem_example :
    let (result, after, w') =
      delete_vm machine remover (codes "/v") [] (codes "a") delete_options vms box in
    let refused = is_running (probe box) state && not delete_options.force in
    ((size : ℕ) × (result ≡ ok size) × (lookup (codes "a") after ≡ none) × (refused ≡ false))
    ⊎ (result ≡ err vm_is_running)
      × (lookup (codes "a") after ≡ some (directory dir))
      × (w' ≡ box)
      × (refused ≡ true)
    ⊎ ((e : DeleteError) × (left : VmDir) × (result ≡ err e)
        × (lookup (codes "a") after ≡ some (directory left))
        × (refused ≡ false))
unfolding valid_name all_bytes is_name_byte is_alphanumeric str_eq lookup
delete_vm_lem_example =
    delete_vm_lem machine remover (codes "/v") [] (codes "a") delete_options vms box dir state refl
      refl refl

abbrev stores : Stores
stores = record { vms = vms; images = images }

docker-Exists : Exists (codes "docker") images
unfolding lookup str_eq
docker-Exists = (
  record {
    metadata = readable image;
    files = codes "kernel" ∷ codes "initramfs" ∷ codes "disk.img" ∷ [];
    size = some 9;
  },
  refl,
)

stores-ImagesExist : ImagesExist stores
unfolding lookup
stores-ImagesExist = record {
  exists = λ name d m there k. elim (Bool-cases (str_eq (codes "a") name)) [
    | inl e ↦
        let same : dir ≡ d = cc (rw e at there) in
        let read = ap (λ x. x.metadata) same ∙ k in
        let equal : metadata ≡ m = cc in subst (λ x. Exists x.image images) equal docker-Exists
    | inr e ↦ cc (rw e at there)
  ];
}

abbrev created : Stores
created = record stores { vms = (creation (codes "b")).1 }

abbrev image_remover : ImageRemover
image_remover = record { removes = true; left = λ d. d }

abbrev kept : Stores
kept = record created {
  images = (delete_image image_remover (codes "docker") false created.vms created.images).1;
}

steps : Reaches stores kept
steps =
    later stores created kept
      (later stores stores created (here stores)
        (creates stores creator (codes "/v") (codes "b") (codes "docker") [] options refl))
      (deletes_image created image_remover (codes "docker"))

Reaches-ImagesExist_example : ImagesExist kept
Reaches-ImagesExist_example = Reaches-ImagesExist stores kept steps stores-ImagesExist
