-- ===== src/Tests/Listings.antt =====
-- A store with two VMs and a file between them.
use spind.Prelude.{Bytes, List, [], codes, is_empty, ok, refl, str_eq, ◌∷◌, ◌≡◌}
use mathlib.Core.List.{Perm}
use spind.Name.{valid_name, all_bytes, is_name_byte, is_alphanumeric}
use spind.Snapshot.{join}
use spind.Text.Order.{str_lt, insert_by, sort_by, IsAscending}
use spind.Vm.{readable, missing, hydrate_vm_metadata}
use spind.Vm.Info.{VmInfo}
use spind.Vm.Status.{vm_status, info_of, read_metadata, read_state}
use spind.Vm.Store.{VmDir, not_directory, directory, Vms}
use spind.Vm.Listing.{
  entries, read_dir, sort_vm_infos, listed_infos, sorted_list, list_vms, Reports, list_vms-Reports,
}
use spind.Tests.Vms.{host, metadata, state}

abbrev dir : VmDir
dir = record {
  metadata = readable metadata;
  state = readable state;
  runner_config = missing;
  hypervisor_config = missing;
  files = [];
}

abbrev vms : Vms
vms = (codes "b", directory dir) ∷ (codes "note", not_directory) ∷ (codes "a", directory dir) ∷ []

abbrev info : Bytes → VmInfo
info name =
    info_of host (join (codes "/v") name) name (hydrate_vm_metadata host.goarch metadata) state

abbrev infos : List VmInfo
infos = info (codes "a") ∷ info (codes "b") ∷ []

lists : list_vms host (codes "/v") (entries vms) ≡ ok infos
unfolding list_vms sorted_list listed_infos read_dir sort_vm_infos sort_by insert_by str_lt
    vm_status read_metadata read_state valid_name all_bytes is_name_byte is_alphanumeric is_empty
    info_of str_eq
lists = refl

list_vms-Reports_example :
    IsAscending (λ info. info.name) infos
    × Perm (read_dir vms) vms
    × ((found : List VmInfo) × Reports host (codes "/v") (read_dir vms) found × Perm infos found)
list_vms-Reports_example = list_vms-Reports host (codes "/v") vms infos lists
