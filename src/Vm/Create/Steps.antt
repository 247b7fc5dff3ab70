-- ===== src/Vm/Create/Steps.antt =====
-- The steps of `CreateFromImageWithOptions` that fill the directory of a new VM.
use spind.Prelude.{
  Bytes, List, Result, [], codes, err, false, if◌then◌else◌, is_empty, none, not, ok, some, str_eq,
  ℕ, ◌&&◌, ◌>>=◌, ◌∷◌,
}
use spind.Snapshot.{cloud_hypervisor, virtualization_framework}
use spind.Snapshot.Prune.{has_name}
use spind.Vm.{VmMetadata, readable}
use spind.Vm.State.{VmState}
use spind.Vm.Config.{ImageMetadata, RunnerConfig}
use spind.Vm.Config.CommandLine.{apply_image_authorized_key_command_line}
use spind.Vm.Config.Made.{runner_config, cloud_hypervisor_config}
use spind.Vm.Stop.{stopped_state}
use spind.Vm.Store.{VmDir}
use spind.Vm.Create.{
  CreateError, image_file_not_found, copy_failed, key_failed, write_failed, inject_failed,
  machine_id_failed, runner_refused, CreateCall, copy_file, write_file, inject_key, validate_runner,
  Creator, VmCreateOptions, CreateStep, apply_option, required_file_names, Accepted,
}

pub record Resources : Type 0 where
  pub cpu_count : ℕ
  pub memory_mib : ℕ
  pub exec_port : ℕ

module _ (creator : Creator) where
  unfoldable pub attempt : CreateCall → CreateError → VmDir → VmDir → CreateStep
  attempt call e before after = if creator.fails call then err (e, before) else ok after

  abbrev pub with_file : Bytes → VmDir → VmDir
  with_file name dir = record dir { files = name ∷ dir.files }

  -- `filecopy.Copy`, which makes a new file
  unfoldable pub copy_file_step : List Bytes → Bytes → VmDir → CreateStep
  copy_file_step image_files name dir =
      if not (has_name name image_files)
      then err (image_file_not_found, dir)
      else if has_name name dir.files
      then err (copy_failed, dir)
      else attempt (copy_file name) copy_failed dir (with_file name dir)

  unfoldable pub copy_files : List Bytes → List Bytes → VmDir → CreateStep
  copy_files image_files [] dir = ok dir
  copy_files image_files (name ∷ names) dir =
      copy_file_step image_files name dir >>= copy_files image_files names

  abbrev pub write_named : Bytes → VmDir → CreateStep
  write_named name dir = attempt (write_file name) write_failed dir (with_file name dir)

  unfoldable pub write_keys : VmDir → CreateStep
  write_keys dir = write_named (codes "ssh_key") dir >>= write_named (codes "ssh_key.pub")

  unfoldable pub inject_step : ImageMetadata → VmDir → CreateStep
  inject_step image dir =
      if is_empty image.ssh_authorized_key_command_line_param
      then attempt inject_key inject_failed dir dir
      else ok dir

  unfoldable pub identified : RunnerConfig → VmDir → Result (CreateError × VmDir) RunnerConfig
  identified config dir =
      if is_empty creator.runner_path then ok config else elim creator.runner_machine_identifier [
        | none ↦ err (machine_id_failed, dir)
        | some identifier ↦ ok (record config { machine_identifier = identifier })
      ]

  abbrev pub with_key : ImageMetadata → Bytes → Bytes → Bytes
  with_key image public_key command_line =
      apply_image_authorized_key_command_line creator.base64 image public_key command_line

  unfoldable pub runner_step :
      Bytes → Bytes → ImageMetadata → VmCreateOptions → Bytes → VmDir → CreateStep
  runner_step name vm_dir image options public_key dir = do
    let made = runner_config creator.random name vm_dir image
    let sized = record made {
      cpu_count = apply_option options.cpu_count made.cpu_count;
      memory_mib = apply_option options.memory_mib made.memory_mib;
      kernel_command_line = with_key image public_key made.kernel_command_line;
    }
    config ← identified sized dir
    attempt (write_file (codes "runner-config.json")) write_failed dir
        (record dir { runner_config = readable config })

  unfoldable pub hypervisor_step :
      Bytes → Bytes → ImageMetadata → VmCreateOptions → Bytes → VmDir → CreateStep
  hypervisor_step name vm_dir image options public_key dir =
      let made = cloud_hypervisor_config creator.random name vm_dir image in
      attempt (write_file (codes "cloud-hypervisor-config.json")) write_failed dir (record dir {
        hypervisor_config = readable (record made {
          cpu_count = apply_option options.cpu_count made.cpu_count;
          memory_mib = apply_option options.memory_mib made.memory_mib;
          kernel_command_line = with_key image public_key made.kernel_command_line;
        });
      })

  -- what the metadata takes from the configuration
  unfoldable pub resources_of : Bytes → Bytes → Bytes → ImageMetadata → VmCreateOptions → Resources
  resources_of backend name vm_dir image options =
      let runner = runner_config creator.random name vm_dir image in
      let hypervisor = cloud_hypervisor_config creator.random name vm_dir image in
      if str_eq backend cloud_hypervisor
      then record {
        cpu_count = apply_option options.cpu_count hypervisor.cpu_count;
        memory_mib = apply_option options.memory_mib hypervisor.memory_mib;
        exec_port = hypervisor.exec_port;
      }
      else record {
        cpu_count = apply_option options.cpu_count runner.cpu_count;
        memory_mib = apply_option options.memory_mib runner.memory_mib;
        exec_port = runner.exec_port;
      }

  unfoldable pub created_metadata : Bytes → Bytes → Bytes → Accepted → VmCreateOptions → VmMetadata
  created_metadata name image_name vm_dir accepted options =
      let resources = resources_of accepted.backend name vm_dir accepted.image options in
      record {
        name = name;
        image = image_name;
        image_type = accepted.image.image_type;
        backend = accepted.backend;
        architecture = accepted.image.architecture;
        exec_user = accepted.image.exec_user;
        created_at = creator.now;
        project_name = [];
        project_root = [];
        project_role = [];
        from_snapshot = false;
        source_snapshot = [];
        restore_state_path = [];
        cpu_count = resources.cpu_count;
        memory_mib = resources.memory_mib;
        exec_port = resources.exec_port;
        kind_ready = false;
        k8s_distribution = [];
        kubeconfig_path = [];
      }

  -- `generateVMSSHKey`
  unfoldable pub key_step : VmDir → Result (CreateError × VmDir) (Bytes × Bytes)
  key_step dir = elim creator.key_pair [ none ↦ err (key_failed, dir) | some keys ↦ ok keys ]

  unfoldable pub config_step :
      Bytes → Bytes → Accepted → VmCreateOptions → Bytes → VmDir → CreateStep
  config_step name vm_dir accepted options public_key dir =
      if str_eq accepted.backend cloud_hypervisor
      then hypervisor_step name vm_dir accepted.image options public_key dir
      else runner_step name vm_dir accepted.image options public_key dir

  unfoldable pub metadata_step : VmMetadata → VmDir → CreateStep
  metadata_step metadata dir =
      attempt (write_file (codes "metadata.json")) write_failed dir
        (record dir { metadata = readable metadata })

  unfoldable pub state_step : VmState → VmDir → CreateStep
  state_step state dir =
      attempt (write_file (codes "state.json")) write_failed dir
        (record dir { state = readable state })

  unfoldable pub validate_step : Bytes → VmDir → CreateStep
  validate_step backend dir =
      if str_eq backend virtualization_framework && not (is_empty creator.runner_path)
      then attempt validate_runner runner_refused dir dir
      else ok dir

  -- the files that say what the VM is, and the check of the runner
  unfoldable pub describe : VmMetadata → Bytes → VmDir → CreateStep
  describe metadata backend dir = do
    described ← metadata_step metadata dir
    stopped ← state_step (stopped_state backend creator.now) described
    validate_step backend stopped

  unfoldable pub provide_keys : Accepted → Bytes × Bytes → VmDir → CreateStep
  provide_keys accepted keys dir = do keyed ← write_keys dir; inject_step accepted.image keyed

  unfoldable pub populate : Bytes → Bytes → Bytes → Accepted → VmCreateOptions → VmDir → CreateStep
  populate name image_name vm_dir accepted options empty = do
    copied ← copy_files accepted.image_dir.files (required_file_names accepted.image) empty
    keys ← key_step copied
    provided ← provide_keys accepted keys copied
    configured ← config_step name vm_dir accepted options keys.1 provided
    describe (created_metadata name image_name vm_dir accepted options) accepted.backend configured
