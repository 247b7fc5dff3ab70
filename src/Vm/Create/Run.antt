-- ===== src/Vm/Create/Run.antt =====
-- `CreateFromImageWithOptions` of internal/spind/vm/start/manager.go as a whole, over the stores of
-- VMs and of images.
use spind.Prelude.{Bytes, Option, Result, [], err, if◌then◌else◌, none, ok, some}
use spind.Snapshot.{join}
use spind.Vm.{missing}
use spind.Vm.Store.{lookup, erase, store, VmDir, VmEntry, directory, Vms, Images}
use spind.Vm.Create.{
  CreateError, make_store_failed, already_exists, make_dir_failed, make_store, make_dir, remove_all,
  Creator, VmCreateOptions, CreateStep, accept,
}
use spind.Vm.Create.Steps.{populate}

abbrev pub empty_dir : VmDir
empty_dir = record {
  metadata = missing;
  state = missing;
  runner_config = missing;
  hypervisor_config = missing;
  files = [];
}

-- `os.RemoveAll` behind a step that failed
unfoldable pub clean_up_created :
    Creator → Bytes → Vms → CreateStep → Result CreateError (Unit {0}) × Vms
clean_up_created creator name vms (ok dir) = (ok tt, store name (directory dir) vms)
clean_up_created creator name vms (err (e, dir)) = (
  err e,
  if creator.fails remove_all
      then store name (directory (creator.left dir)) vms
      else erase name (store name (directory dir) vms),
)

-- `os.Mkdir`, and what follows
unfoldable pub make_vm :
    Creator → Bytes → Vms → Option VmEntry → CreateStep → Result CreateError (Unit {0}) × Vms
make_vm creator name vms (some entry) populated = (err already_exists, vms)
make_vm creator name vms none populated =
    if creator.fails make_dir
    then (err make_dir_failed, vms)
    else clean_up_created creator name vms populated

unfoldable pub create_from_image :
    Creator
    → Bytes
    → Bytes
    → Bytes
    → Bytes
    → VmCreateOptions
    → Images
    → Vms
    → Result CreateError (Unit {0}) × Vms
create_from_image creator vm_store name image_name backend options images vms =
    elim (accept creator name image_name backend options images) [
      | err e ↦ (err e, vms)
      | ok accepted ↦
          if creator.fails make_store
          then (err make_store_failed, vms)
          else make_vm creator name vms (lookup name vms)
              (populate creator name image_name (join vm_store name) accepted options empty_dir)
    ]
