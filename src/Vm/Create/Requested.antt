-- ===== src/Vm/Create/Requested.antt =====
-- A VM that is created has what was asked for.
use spind.Prelude.{
  All, Bool-cases, Bytes, List, [], ap, codes, false, if◌then◌else◌, inl, inr, map, none, ok, refl,
  some, str_eq, subst, true, ◌∷◌, ◌≡◌,
}
use spind.Text.Words.{contains}
use spind.Snapshot.{join, cloud_hypervisor}
use spind.Snapshot.Prune.{has_name}
use spind.Vm.{VmMetadata, readable, or_else}
use spind.Vm.State.{VmState}
use spind.Vm.Store.{lookup, store, VmDir, directory, Vms, ImageDir, image_directory, Images}
use spind.Vm.Config.{DiskMetadata, ImageMetadata}
use spind.Vm.Config.Made.{default_memory, runner_config, cloud_hypervisor_config}
use spind.Vm.Stop.{stopped_state}
use spind.Vm.Create.{
  Creator, VmCreateOptions, Accepted, is_negative, required_file_names, disk_files,
}
use spind.Vm.Create.Steps.{created_metadata, resources_of}
use spind.Vm.Create.Run.{create_from_image}
use spind.Vm.Create.Created.{IsCreated, create_from_image-IsCreated}
use spind.Vm.Create.Asked.{
  Chosen, ChosenBackend, IsAccepted, apply_option-Chosen, accept-IsAccepted,
}

-- the metadata, the state and the files of a VM made of the image with the options
pub record IsRequested (creator : Creator) (name image_name backend : Bytes)
    (options : VmCreateOptions) (image : ImageMetadata) (dir : VmDir) : Type 0 where
  pub metadata : VmMetadata
  pub metadata_read : dir.metadata ≡ readable metadata
  pub is_named : metadata.name ≡ name
  pub of_image : metadata.image ≡ image_name
  pub on_backend : ChosenBackend creator.goos backend metadata.backend
  pub cpus : Chosen options.cpu_count image.cpu_count 2 metadata.cpu_count
  pub memory :
      Chosen options.memory_mib image.memory_mib
        (if contains (codes "docker") (or_else image.name image_name) then 2048 else 1024)
        metadata.memory_mib
  pub state : VmState
  pub state_read : dir.state ≡ readable state
  pub is_stopped : state.status ≡ codes "stopped"
  pub no_process : state.pid ≡ 0
  pub same_backend : state.backend ≡ metadata.backend
  pub kernel : has_name (codes "kernel") dir.files ≡ true
  pub initramfs : has_name (codes "initramfs") dir.files ≡ true
  pub one_disk : image.disks ≡ [] → has_name (codes "disk.img") dir.files ≡ true
  pub every_disk : All (λ disk. has_name disk.name dir.files ≡ true) image.disks

-- the resources are those of the options, the image or the defaults, on both backends
created_metadata-Chosen :
    (creator : Creator) (name image_name vm_dir : Bytes) (accepted : Accepted)
    (options : VmCreateOptions)
    → is_negative options.cpu_count ≡ false
    → is_negative options.memory_mib ≡ false
    → let metadata = created_metadata creator name image_name vm_dir accepted options in
      Chosen options.cpu_count accepted.image.cpu_count 2 metadata.cpu_count
      × Chosen options.memory_mib accepted.image.memory_mib
          (default_memory accepted.image)
          metadata.memory_mib
unfolding created_metadata resources_of runner_config cloud_hypervisor_config
created_metadata-Chosen creator name image_name vm_dir accepted options cpus memory =
    let cpus_chosen = apply_option-Chosen options.cpu_count accepted.image.cpu_count 2 cpus in
    let memory_chosen =
      apply_option-Chosen options.memory_mib accepted.image.memory_mib
        (default_memory accepted.image) memory in
    elim (Bool-cases (str_eq accepted.backend cloud_hypervisor)) [
      | inl e ↦ rw e (cpus_chosen, memory_chosen)
      | inr e ↦ rw e (cpus_chosen, memory_chosen)
    ]

named_files :
    (files : List Bytes) (disks : List DiskMetadata)
    → All (λ n. has_name n files ≡ true) (map (λ d. d.name) disks)
    → All (λ disk. has_name disk.name files ≡ true) disks
named_files files [] h = tt
named_files files (disk ∷ disks) (here, rest) = (here, named_files files disks rest)

disks_there :
    (files : List Bytes) (disks : List DiskMetadata)
    → All (λ n. has_name n files ≡ true) (disk_files disks)
    → (disks ≡ [] → has_name (codes "disk.img") files ≡ true)
      × All (λ disk. has_name disk.name files ≡ true) disks
disks_there files [] (here, rest) = (λ e. here, tt)
disks_there files (disk ∷ disks) all = (λ e. cc e, named_files files (disk ∷ disks) all)

default_memory_of :
    (taken : ImageMetadata) (name : Bytes)
    → taken.name ≡ name
    → default_memory taken ≡ (if contains (codes "docker") name then 2048 else 1024)
unfolding default_memory
default_memory_of taken name h = ap (λ n. if contains (codes "docker") n then 2048 else 1024) h

IsCreated-IsRequested :
    (creator : Creator) (name image_name backend vm_dir : Bytes) (accepted : Accepted)
    (options : VmCreateOptions) (images : Images) (dir : VmDir)
    (a : IsAccepted creator image_name backend options images accepted)
    → IsCreated creator name image_name vm_dir accepted options dir
    → IsRequested creator name image_name backend options a.image dir
unfolding created_metadata required_file_names
IsCreated-IsRequested creator name image_name backend vm_dir accepted options images dir a c =
    let taken = a.taken in
    let (cpus, memory) =
      created_metadata-Chosen creator name image_name vm_dir accepted options a.plain_cpus
        a.plain_memory in
    let (kernel, (initramfs, disks)) : All (λ n. has_name n dir.files ≡ true)
        (codes "kernel" ∷ codes "initramfs" ∷ disk_files accepted.image.disks) =
      c.has_files in
    let (one_disk, every_disk) = disks_there dir.files a.image.disks (
      subst (λ ds. All (λ n. has_name n dir.files ≡ true) (disk_files ds)) taken.same_disks
        disks) in
    let metadata = created_metadata creator name image_name vm_dir accepted options in
    record {
      metadata = metadata;
      metadata_read = c.has_metadata;
      is_named = refl;
      of_image = refl;
      on_backend = a.chosen;
      cpus = subst (λ n. Chosen options.cpu_count n 2 metadata.cpu_count) taken.same_cpus cpus;
      memory =
          subst (λ d. Chosen options.memory_mib a.image.memory_mib d metadata.memory_mib)
            (default_memory_of accepted.image _ taken.its_name)
            (subst
              (λ n. Chosen options.memory_mib n (default_memory accepted.image) metadata.memory_mib)
              taken.same_memory memory);
      state = stopped_state accepted.backend creator.now;
      state_read = c.has_state;
      is_stopped = refl;
      no_process = refl;
      same_backend = refl;
      kernel = kernel;
      initramfs = initramfs;
      one_disk = one_disk;
      every_disk = every_disk;
    }

-- A creation that succeeds adds to the store, whose other entries stay, a VM under a name that no
-- entry had. The image is in the image store with its metadata, and the VM has the name of the image,
-- the backend that was asked for or else the host's own, the CPUs and the memory that were asked for
-- or else those of the image or else the defaults, the state `stopped` without a process, and the
-- kernel, the initramfs and every disk of the image.
pub create_from_image_ok :
    (creator : Creator) (vm_store name image_name backend : Bytes) (options : VmCreateOptions)
    (images : Images) (vms : Vms)
    → (create_from_image creator vm_store name image_name backend options images vms).0 ≡ ok tt
    → (dir : VmDir) × (image_dir : ImageDir) × (image : ImageMetadata) × (lookup image_name images
        ≡ some (image_directory image_dir))
      × (image_dir.metadata ≡ readable image)
      × (lookup name vms ≡ none)
      × ((create_from_image creator vm_store name image_name backend options images vms).1
          ≡ store name (directory dir) vms)
      × IsRequested creator name image_name backend options image dir
create_from_image_ok creator vm_store name image_name backend options images vms h =
    let (accepted, dir, k, free, stored, created) =
      create_from_image-IsCreated creator vm_store name image_name backend options images vms h in
    let a = accept-IsAccepted creator name image_name backend options images accepted k in
    (
      dir,
      a.dir,
      a.image,
      a.there,
      a.image_read,
      free,
      stored,
      IsCreated-IsRequested creator name image_name backend (join vm_store name) accepted options
          images dir a created,
    )
