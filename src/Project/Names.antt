-- ===== src/Project/Names.antt =====
-- The names of the objects of a project.
use spind.Prelude.{
  >>=-eq-ok, Bytes, arith, codes, false, guard, guard-true, ok, refl, str_eq, true, ◌++◌, subst,
  ◌≡◌,
}
use spind.Text.Words.{trim_space}
use spind.Name.{valid_name, valid_name-append, all_bytes, is_name_byte, is_alphanumeric}
use spind.Kubeconfig.Atomic.{str_eq-longer}
use spind.Vm.{JsonFile, or_else}
use spind.Project.{
  ProjectConfig, Project, invalid_project_name, invalid_image_name, unsupported_k8s, supported_k8s,
  parsed_config, load_project,
}

-- Every object of the project has a name that the stores accept.
pub record HasNames (project : Project) : Type 0 where
  pub vm : valid_name project.vm_name ≡ true
  pub provisioning : valid_name project.provisioning_name ≡ true
  pub snapshot : valid_name project.snapshot_name ≡ true
  pub image : valid_name project.image ≡ true
  pub k8s : supported_k8s project.k8s ≡ true
  pub two_vms : str_eq project.provisioning_name project.vm_name ≡ false

provisioning_suffix : all_bytes is_name_byte (codes "-provisioning") ≡ true
unfolding is_name_byte is_alphanumeric all_bytes
provisioning_suffix = refl

provisioned_suffix : all_bytes is_name_byte (codes "-provisioned") ≡ true
unfolding is_name_byte is_alphanumeric all_bytes
provisioned_suffix = refl

-- If a project is loaded, the stores accept the names of its VM, of its provisioning VM, of its
-- snapshot and of its image, its VM and its provisioning VM have different names, and it is of no
-- Kubernetes or of one that is supported.
pub load_project-HasNames :
    (root base_name config_path : Bytes) (file : JsonFile ProjectConfig) (project : Project)
    → load_project root base_name config_path file ≡ ok project
    → HasNames project
unfolding load_project
load_project-HasNames root base_name config_path file project h =
    let (config, _, r1) = >>=-eq-ok (parsed_config file) _ h in
    let name = or_else (trim_space config.name) base_name in
    let image = or_else (trim_space config.image) (codes "docker") in
    let (_, h2, r2) = >>=-eq-ok (guard (valid_name name) invalid_project_name) _ r1 in
    let (_, h3, r3) = >>=-eq-ok (guard (valid_name image) invalid_image_name) _ r2 in
    let (_, h4, r4) =
      >>=-eq-ok (guard (supported_k8s (trim_space config.k8s)) unsupported_k8s) _ r3 in
    let made : Project = record {
      root = root;
      config_path = config_path;
      name = name;
      image = image;
      k8s = trim_space config.k8s;
      setup = config.setup;
      vm_name = name;
      provisioning_name = name ++ codes "-provisioning";
      snapshot_name = name ++ codes "-provisioned";
    } in
    let same : made ≡ project = cc in
    let valid = guard-true (valid_name name) invalid_project_name _ h2 in
    subst HasNames same (record {
      vm = valid;
      provisioning = valid_name-append name (codes "-provisioning") valid provisioning_suffix;
      snapshot = valid_name-append name (codes "-provisioned") valid provisioned_suffix;
      image = guard-true (valid_name image) invalid_image_name _ h3;
      k8s = guard-true (supported_k8s (trim_space config.k8s)) unsupported_k8s _ h4;
      two_vms = str_eq-longer name (codes "-provisioning") (omega arith);
    })
