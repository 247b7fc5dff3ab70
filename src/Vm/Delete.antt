-- ===== src/Vm/Delete.antt =====
-- `DeleteVM`, `vmRunning`, `DeleteImage` and `imageReferences` of
-- internal/spind/vm/start/manager.go, with `Delete` of internal/spind/image/store.go. The removal of
-- a directory, its size and the kubeconfig are the `Remover`, a parameter beside the `Machine`.
use spind.Prelude.{
  Bool, Bytes, List, Option, Result, [], err, if◌then◌else◌, is_nil, none, not, ok, some, str_eq, ℕ,
  ◌&&◌, ◌++◌, ◌∷◌, ◌>>=◌,
}
use spind.Text.Order.{sort_by}
use spind.Name.{valid_name}
use spind.Vm.{VmMetadata, VmError, JsonFile, missing, unreadable, readable}
use spind.Vm.State.{VmState}
use spind.Vm.Status.{is_running, read_state}
use spind.Vm.Store.{
  lookup, erase, store, VmDir, VmEntry, not_directory, directory, Vms, ImageDir, ImageEntry,
  image_not_directory, image_directory, Images,
}
use spind.Vm.Cleanup.{Machine}
pub mod Deleted
pub mod Left
use spind.Vm.Stop.{StopMode, delete, StopError, Stopping, stop}

pub data DeleteError : Type 0 where
  name_not_valid vm_not_found vm_not_directory vm_is_running : DeleteError
  state_not_read : VmError → DeleteError
  stop_failed : StopError → DeleteError
  unmerge_failed size_failed remove_failed : DeleteError

-- `remove_all` says whether all is removed; `left` is what is left where it is not.
pub record Remover (W : Type 0) : Type 0 where
  pub unmerge_kubeconfig : Bytes → W → Bool × W
  pub directory_size : VmDir → W → Option ℕ
  pub remove_all : Bytes → W → Bool × W
  pub left : VmDir → VmDir

pub record VmDeleteOptions : Type 0 where
  pub force : Bool
  pub unmerge_kubeconfig : Bool

module _ {W : Type 0} (machine : Machine W) (remover : Remover W) where
  -- The directory is none where it was removed.
  abbrev pub Deleting : Type 0
  Deleting = Result DeleteError ℕ × Option VmDir × W

  unfoldable pub remove_vm : Bytes → ℕ → VmDir → W → Deleting
  remove_vm name size dir w =
      let (removed, w1) = remover.remove_all name w in
      if removed then (ok size, none, w1) else (err remove_failed, some (remover.left dir), w1)

  unfoldable pub measure_and_remove : Bytes → VmDir → W → Deleting
  measure_and_remove name dir w = elim (remover.directory_size dir w) [
    | none ↦ (err size_failed, some dir, w)
    | some size ↦ remove_vm name size dir w
  ]

  unfoldable pub unmerge_and_remove : Bytes → Bool → VmDir → W → Deleting
  unmerge_and_remove name unmerge dir w =
      let (unmerged, w1) = remover.unmerge_kubeconfig name w in
      if unmerge
      then (if unmerged then measure_and_remove name dir w1 else (err unmerge_failed, some dir, w1))
      else measure_and_remove name dir w

  unfoldable pub stop_and_remove : Bytes → Bytes → Bytes → Bool → VmDir → W → Deleting
  stop_and_remove vm_store runner_path name unmerge dir w =
      let (stopped, s) =
        stop machine delete vm_store runner_path name (record { dir = dir; world = w }) in
      elim stopped [
        | err e ↦ (err (stop_failed e), some s.dir, s.world)
        | ok _ ↦ unmerge_and_remove name unmerge s.dir s.world
      ]

  unfoldable pub delete_dir : Bytes → Bytes → Bytes → VmDeleteOptions → VmDir → W → Deleting
  delete_dir vm_store runner_path name options dir w = elim (read_state dir.state) [
    | err e ↦ (err (state_not_read e), some dir, w)
    | ok state ↦
        if not (is_running (machine.kernel.probe w) state)
        then unmerge_and_remove name options.unmerge_kubeconfig dir w
        else if not options.force
        then (err vm_is_running, some dir, w)
        else stop_and_remove vm_store runner_path name options.unmerge_kubeconfig dir w
  ]

  unfoldable pub put_back : Bytes → Option VmDir → Vms → Vms
  put_back name none vms = erase name vms
  put_back name (some dir) vms = store name (directory dir) vms

  unfoldable pub delete_entry :
      Bytes
      → Bytes
      → Bytes
      → VmDeleteOptions
      → Option VmEntry
      → Vms
      → W
      → Result DeleteError ℕ × Vms × W
  delete_entry vm_store runner_path name options none vms w = (err vm_not_found, vms, w)
  delete_entry vm_store runner_path name options (some not_directory) vms w =
      (err vm_not_directory, vms, w)
  delete_entry vm_store runner_path name options (some (directory dir)) vms w =
      let (result, left, w1) = delete_dir vm_store runner_path name options dir w in
      (result, put_back name left vms, w1)

  unfoldable pub delete_vm :
      Bytes → Bytes → Bytes → VmDeleteOptions → Vms → W → Result DeleteError ℕ × Vms × W
  delete_vm vm_store runner_path name options vms w =
      let deleted = delete_entry vm_store runner_path name options (lookup name vms) vms w in
      if valid_name name then deleted else (err name_not_valid, vms, w)

pub data ImageError : Type 0 where
  image_name_not_valid no_such_image not_an_image_directory image_is_referenced : ImageError
  references_not_read image_size_failed image_remove_failed : ImageError

unfoldable pub reference_of : Bytes → Bytes → JsonFile VmMetadata → Result ImageError (List Bytes)
reference_of image_name name missing = err references_not_read
reference_of image_name name unreadable = err references_not_read
reference_of image_name name (readable metadata) =
    if str_eq metadata.image image_name then ok (name ∷ []) else ok []

unfoldable pub entry_references : Bytes → Bytes → VmEntry → Result ImageError (List Bytes)
entry_references image_name name not_directory = ok []
entry_references image_name name (directory dir) = reference_of image_name name dir.metadata

unfoldable pub collected_references : Bytes → Vms → Result ImageError (List Bytes)
collected_references image_name [] = ok []
collected_references image_name ((name, entry) ∷ vms) = do
  here ← entry_references image_name name entry
  rest ← collected_references image_name vms
  ok (here ++ rest)

unfoldable pub image_references : Bytes → Vms → Result ImageError (List Bytes)
image_references image_name vms = do
  references ← collected_references image_name vms
  ok (sort_by (λ name. name) references)

-- whether the directory of an image can be removed, and what is left of it where it cannot
pub record ImageRemover : Type 0 where
  pub removes : Bool
  pub left : ImageDir → ImageDir

unfoldable pub delete_image_dir :
    ImageRemover
    → Bytes
    → List Bytes
    → Bool
    → ImageDir
    → Images
    → Result ImageError (ℕ × List Bytes) × Images
delete_image_dir remover name references force dir images =
    if not (is_nil references) && not force
    then (err image_is_referenced, images)
    else elim dir.size [
      | none ↦ (err image_size_failed, images)
      | some size ↦
          if remover.removes
          then (ok (size, references), erase name images)
          else (err image_remove_failed, store name (image_directory (remover.left dir)) images)
    ]

unfoldable pub delete_image_entry :
    ImageRemover
    → Bytes
    → List Bytes
    → Bool
    → Option ImageEntry
    → Images
    → Result ImageError (ℕ × List Bytes) × Images
delete_image_entry remover name references force none images = (err no_such_image, images)
delete_image_entry remover name references force (some image_not_directory) images =
    (err not_an_image_directory, images)
delete_image_entry remover name references force (some (image_directory dir)) images =
    delete_image_dir remover name references force dir images

unfoldable pub delete_image :
    ImageRemover → Bytes → Bool → Vms → Images → Result ImageError (ℕ × List Bytes) × Images
delete_image remover name force vms images = elim (image_references name vms) [
  | err e ↦ (err e, images)
  | ok references ↦
      if valid_name name
      then delete_image_entry remover name references force (lookup name images) images
      else (err image_name_not_valid, images)
]
