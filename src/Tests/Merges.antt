-- ===== src/Tests/Merges.antt =====
-- The kubeconfig of a VM that runs, merged into the last of two paths.
use spind.Prelude.{
  Bytes, List, [], arith, codes, false, is_empty, none, ok, refl, some, str_eq, true, ◌++◌, ◌∷◌,
  ◌≡◌, ◌≢◌, ◌⊎◌,
}
use spind.Name.{valid_name, all_bytes, is_name_byte, is_alphanumeric}
use spind.Text.Words.{trim_space, fields, skip_spaces, space_size, matched, has_prefix, is_space}
use spind.Snapshot.Prune.{has_name}
use spind.Kubeconfig.{Document, empty_document, find, filter, merge_document}
use spind.Kubeconfig.Files.{
  missing, file, Files, put, System, lock_path, read_node, read_file, fill_and_rename, clean_up,
  write_file_atomic, unlock, with_kubeconfig_lock, merge_read, merge_file,
}
use spind.Kubeconfig.Atomic.{str_eq-longer, MakesTemp}
use spind.Kubeconfig.Merge.{MergedFile}
use spind.Kubeconfig.Paths.{
  Environment, candidate_paths, implied_paths, variable_paths, split_paths, path_for_merge,
  first_file, stat_path,
}
use spind.Vm.{VmMetadata, readable, hydrate_vm_metadata}
use spind.Vm.Info.{VmInfo}
use spind.Vm.Logs.{unseen, first_non_empty}
use spind.Vm.Status.{
  vm_status, info_of, read_metadata, read_state, is_running, live_status, process_alive,
  kubernetes_support,
}
use spind.Vm.Config.{ImageMetadata, RunnerConfig, HypervisorConfig}
use spind.Vm.Config.CommandLine.{cloud_hypervisor_kernel_command_line}
use spind.Vm.Config.Filtered.{IsFiltered, cloud_hypervisor_kernel_command_line_lem}
use spind.Vm.Config.Made.{Random, runner_config, cloud_hypervisor_config}
use spind.Vm.Config.Normal.{
  normalize_runner_config, normalize_cloud_hypervisor_config, IsFull, normalize_runner_config_lem,
}
use spind.Vm.Merged.{
  VmMergeOptions, source_path, lift, check_source, entry_name, plan_merge, merge_plan,
  kubeconfig_merge, kubeconfig_merge-MergedFile,
}
use spind.Tests.Vms.{host, metadata, state}

abbrev entry : Bytes
entry = codes "spind-a"

abbrev empty : Document (Unit {0})
empty = record empty_document { api_version = codes "v1"; kind = codes "Config" }

abbrev of_vm : Document (Unit {0})
of_vm = record empty {
  clusters =
      record {
        name = entry;
        server = codes "https://127.0.0.1:1";
        certificate_authority_data = [];
        insecure_skip_tls_verify = false;
        ref_other_fields = tt;
        other_fields = tt;
      }
      ∷ [];
  users = record { name = entry; user = tt; other_fields = tt } ∷ [];
  contexts =
      record {
        name = entry;
        cluster = entry;
        user = entry;
        ref_other_fields = tt;
        other_fields = tt;
      }
      ∷ [];
}

-- every file reads as the kubeconfig of the VM
abbrev os : System (Unit {0})
os = record {
  fails = λ call path. false;
  temp_name = λ files path. path ++ codes "~";
  written = 0;
  marshal = λ doc. some (codes "B");
  unmarshal = λ content. some of_vm;
}

os-MakesTemp : MakesTemp os
os-MakesTemp = record { not_path = λ files path. str_eq-longer path (codes "~") (omega arith) }

abbrev files : Files
files = put (codes "/v/a/kubeconfig") (file 384 (codes "B")) (λ path. missing)

abbrev env : Environment
env = record { kubeconfig = codes "/x:/config:/x"; home = none; abs = λ path. some path }

abbrev options : VmMergeOptions
options = record {
  kubeconfig_path = [];
  merge = record { replace = true; set_current_context = false };
}

abbrev kind_metadata : VmMetadata
kind_metadata = record metadata { kind_ready = true }

abbrev info : VmInfo
info =
    info_of host (codes "/v/a") (codes "a") (hydrate_vm_metadata (codes "amd64") kind_metadata)
      state

status_runs :
    vm_status host (codes "/v") (codes "a") (readable kind_metadata) (readable state) ≡ ok info
unfolding vm_status read_metadata read_state valid_name all_bytes is_name_byte is_alphanumeric
    str_eq
status_runs = refl

not_lock : str_eq (lock_path (codes "/config")) (source_path info) ≡ false
unfolding source_path info_of str_eq is_empty first_non_empty hydrate_vm_metadata
not_lock = refl

merge_runs :
    (kubeconfig_merge os env host
      (codes "/v")
      (codes "a")
      options
      (readable kind_metadata)
      (readable state)
      files).0
    ≡ ok (codes "/config")
unfolding kubeconfig_merge plan_merge merge_plan lift check_source source_path vm_status
    read_metadata read_state valid_name all_bytes is_name_byte is_alphanumeric str_eq info_of
    hydrate_vm_metadata live_status process_alive kubernetes_support is_empty first_non_empty
    candidate_paths implied_paths variable_paths split_paths unseen has_name path_for_merge
    first_file stat_path put merge_file with_kubeconfig_lock unlock merge_read read_file read_node
    merge_document find filter write_file_atomic fill_and_rename clean_up trim_space skip_spaces
    space_size matched has_prefix is_space
merge_runs = refl

kubeconfig_merge-MergedFile_example :
    (is_running host.probe state ≡ true)
    × (true ≡ true)
    × ((paths : List Bytes) × (candidate_paths env [] ≡ ok paths)
        × (has_name (codes "/config") paths ≡ true))
    × MergedFile os
        (codes "/config")
        (source_path info)
        (entry_name (codes "a"))
        options.merge
        files
        (kubeconfig_merge os env host
          (codes "/v")
          (codes "a")
          options
          (readable kind_metadata)
          (readable state)
          files).1
kubeconfig_merge-MergedFile_example =
    kubeconfig_merge-MergedFile os env host os-MakesTemp (codes "/v") (codes "a") options
      kind_metadata state files info (codes "/config") status_runs not_lock merge_runs

abbrev random : Random
random = record { machine_identifier = codes "m"; guest_mac = codes "02:00:00:00:00:01" }

random-IsFull : IsFull random
unfolding is_empty
random-IsFull = record { has_machine_identifier = refl; has_guest_mac = refl }

abbrev image : ImageMetadata
image = record {
  name = codes "docker";
  image_type = [];
  architecture = [];
  created_at = 1;
  kernel_command_line = [];
  exec_user = [];
  cpu_count = 0;
  memory_mib = 0;
  ssh_authorized_key_command_line_param = [];
  disks = [];
}

abbrev runner : RunnerConfig
runner = runner_config random (codes "a") (codes "/v/a") image

abbrev hypervisor : HypervisorConfig
hypervisor = cloud_hypervisor_config random (codes "a") (codes "/v/a") image

normalize_runner_config_lem_example :
    (normalize_runner_config random (codes "/v/a") runner ≡ runner)
    × (normalize_cloud_hypervisor_config (codes "/v/a") hypervisor ≡ hypervisor)
    × (normalize_runner_config random
          (codes "/v/a")
          (normalize_runner_config random (codes "/v/a") runner)
        ≡ normalize_runner_config random (codes "/v/a") runner)
    × (normalize_cloud_hypervisor_config
          (codes "/v/a")
          (normalize_cloud_hypervisor_config (codes "/v/a") hypervisor)
        ≡ normalize_cloud_hypervisor_config (codes "/v/a") hypervisor)
normalize_runner_config_lem_example =
    normalize_runner_config_lem random random (codes "a") (codes "/v/a") image runner hypervisor
      random-IsFull

abbrev with_modules : ImageMetadata
with_modules = record image { kernel_command_line = codes "root=/dev/vda modules=ext4 quiet" }

cloud_hypervisor_kernel_command_line_lem_example :
    let line = cloud_hypervisor_kernel_command_line with_modules in
    (with_modules.image_type ≡ codes "microvm-nix")
      × (line ≡ trim_space with_modules.kernel_command_line)
    ⊎ (with_modules.image_type ≢ codes "microvm-nix")
      × ((fields with_modules.kernel_command_line ≡ [])
            × (line ≡ codes "console=ttyS0 root=/dev/vda1 rw")
          ⊎ IsFiltered (fields with_modules.kernel_command_line) line)
cloud_hypervisor_kernel_command_line_lem_example =
    cloud_hypervisor_kernel_command_line_lem with_modules
