-- ===== src/Tests/Projects.antt =====
-- A project, and a store with a VM that is not its own.
use spind.Prelude.{Result, [], codes, false, is_empty, ok, refl, some, str_eq, true, ◌≡◌, ◌↔◌}
use spind.Text.Words.{trim_space, skip_spaces, space_size, matched, has_prefix, is_space}
use spind.Name.{valid_name, all_bytes, is_name_byte, is_alphanumeric}
use spind.Vm.{readable, missing}
use spind.Vm.Store.{lookup, directory, Vms}
use spind.Project.{
  ProjectConfig, Project, ProjectError, MetadataWriter, parsed_config, load_project,
  validate_project_vm, mark_vm_project, mark_dir, delete_project_vm_if_exists,
}
use spind.Project.Owned.{owns, delete_project_vm_keeps, mark_vm_project_lem}
use spind.Project.Names.{HasNames, load_project-HasNames}
use spind.Tests.Vms.{box, machine, dir}
use spind.Tests.Stores.{vms, remover}

abbrev config : ProjectConfig
config = record { name = codes " app"; image = []; k8s = codes "kind"; setup = [] }

abbrev project : Project
project = record {
  root = codes "/src/x";
  config_path = codes "/src/x/spind.yaml";
  name = codes "app";
  image = codes "docker";
  k8s = codes "kind";
  setup = [];
  vm_name = codes "app";
  provisioning_name = codes "app-provisioning";
  snapshot_name = codes "app-provisioned";
}

loads :
    load_project (codes "/src/x") (codes "x") (codes "/src/x/spind.yaml") (readable config)
    ≡ ok project
unfolding load_project parsed_config trim_space skip_spaces space_size matched has_prefix is_space
    valid_name all_bytes is_name_byte is_alphanumeric is_empty str_eq
loads = refl

load_project-HasNames_example : HasNames project
load_project-HasNames_example =
    load_project-HasNames (codes "/src/x") (codes "x") (codes "/src/x/spind.yaml") (readable config)
      project loads

there : lookup (codes "a") vms ≡ some (directory dir)
unfolding lookup str_eq
there = refl

not_owned : owns (codes "/src/x") (directory dir) ≡ false
unfolding str_eq
not_owned = refl

delete_project_vm_keeps_example :
    lookup
      (codes "a")
      (delete_project_vm_if_exists machine remover
        (λ name. false)
        (codes "/v")
        []
        (codes "a")
        (codes "/src/x")
        vms
        box).1
    ≡ some (directory dir)
delete_project_vm_keeps_example =
    delete_project_vm_keeps machine remover (λ name. false) (codes "/v") [] (codes "a")
      (codes "/src/x") vms box (codes "a") (directory dir) there not_owned

abbrev writer : MetadataWriter
writer = record { writes = true; left = missing }

abbrev mark : Result ProjectError (Unit {0}) × Vms
mark = mark_vm_project writer (codes "a") project (codes "work") (lookup (codes "a") vms) vms

marks : mark.0 ≡ ok tt
unfolding mark_vm_project mark_dir lookup str_eq
marks = refl

mark_vm_project_lem_example :
    (validate_project_vm (λ name. false) (codes "a") (codes "/src/x") mark.1 ≡ ok tt)
    ↔ (codes "/src/x" ≡ codes "/src/x")
mark_vm_project_lem_example =
    mark_vm_project_lem writer (λ name. false) (codes "a") (codes "work") (codes "/src/x") project
      vms marks refl
