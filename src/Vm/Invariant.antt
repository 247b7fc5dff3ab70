-- ===== src/Vm/Invariant.antt =====
-- The steps of the stores of VMs and of images: creations, deletions of VMs and deletions of images
-- that are not forced. Along every sequence of them the image of every VM is there.
use spind.Prelude.{
  Bool-cases, Bytes, Option-cases, Result-cases, ap, false, inl, inr, some, str_eq, str_eq_iff,
  subst, sym, ◌∙◌, ◌≡◌,
}
use spind.Name.{valid_name}
use spind.Vm.{VmMetadata, readable}
use spind.Vm.Store.{
  lookup, erase, store, lookup-erase_self, lookup-erase_other, lookup-store_self,
  lookup-store_other, VmDir, not_directory, directory, Vms, Images,
}
use spind.Vm.Cleanup.{Machine}
use spind.Vm.Create.{remove_all, Creator, VmCreateOptions, Accepted}
use spind.Snapshot.{join}
use spind.Vm.Create.Steps.{created_metadata}
use spind.Vm.Create.Run.{create_from_image}
use spind.Vm.Create.Created.{IsCreated, create_from_image_failed, create_from_image-IsCreated}
use spind.Vm.Delete.{
  Remover, VmDeleteOptions, delete_dir, put_back, delete_entry, delete_vm, ImageRemover,
  delete_image,
}
use spind.Vm.Delete.Left.{LeavesMetadata, delete_dir-Leaves}
use spind.Vm.Images.{Stores, Exists, ImagesExist, accept_image, delete_image-exists}

-- An entry that a VM had before, or one with an image that is there.
store-Exists :
    (name : Bytes) (dir : VmDir) (vms : Vms) (images : Images)
    → ((metadata : VmMetadata) → dir.metadata ≡ readable metadata → Exists metadata.image images)
    → ImagesExist (record { vms = vms; images = images })
    → ImagesExist (record { vms = store name (directory dir) vms; images = images })
store-Exists name dir vms images new inv = record {
  exists = λ vm d metadata there k. elim (Bool-cases (str_eq name vm)) [
    | inl e ↦
        let same = (str_eq_iff name vm).0 e in
        let at_name =
          subst (λ n. lookup n (store name (directory dir) vms) ≡ some (directory d)) (sym same)
            there in
        let found = sym (lookup-store_self name (directory dir) vms) ∙ at_name in
        let same_dir : dir ≡ d = cc in new metadata (ap (λ d. d.metadata) same_dir ∙ k)
    | inr e ↦
        inv.exists vm d metadata (sym (lookup-store_other name vm (directory dir) vms e) ∙ there) k
  ];
}

erase-exists :
    (name : Bytes) (vms : Vms) (images : Images)
    → ImagesExist (record { vms = vms; images = images })
    → ImagesExist (record { vms = erase name vms; images = images })
erase-exists name vms images inv = record {
  exists = λ vm d metadata there k. elim (Bool-cases (str_eq name vm)) [
    | inl e ↦
        let same = (str_eq_iff name vm).0 e in
        let at_name =
          subst (λ n. lookup n (erase name vms) ≡ some (directory d)) (sym same) there in
        let gone = lookup-erase_self name vms in cc
    | inr e ↦ inv.exists vm d metadata (sym (lookup-erase_other name vm vms e) ∙ there) k
  ];
}

created_image :
    (creator : Creator) (name image_name vm_dir : Bytes) (accepted : Accepted)
    (options : VmCreateOptions) (dir : VmDir) (metadata : VmMetadata)
    → IsCreated creator name image_name vm_dir accepted options dir
    → dir.metadata ≡ readable metadata
    → image_name ≡ metadata.image
unfolding created_metadata
created_image creator name image_name vm_dir accepted options dir metadata made k =
    let written = created_metadata creator name image_name vm_dir accepted options in
    let read = sym made.has_metadata ∙ k in
    let same : written ≡ metadata = cc in ap (λ m. m.image) same

create-exists :
    (creator : Creator) (vm_store name image_name backend : Bytes) (options : VmCreateOptions)
    (vms : Vms) (images : Images)
    → creator.fails remove_all ≡ false
    → ImagesExist (record { vms = vms; images = images })
    → ImagesExist (record {
      vms = (create_from_image creator vm_store name image_name backend options images vms).1;
      images = images;
    })
create-exists creator vm_store name image_name backend options vms images removable inv =
    elim (Result-cases
      (create_from_image creator vm_store name image_name backend options images vms).0) [
        | inr (reason, e) ↦
            rw
              (create_from_image_failed creator removable vm_store name image_name backend options
                images vms reason e)
              inv
        | inl (_, e) ↦
            let (accepted, dir, h, _, after, made) =
              create_from_image-IsCreated creator vm_store name image_name backend options images
                vms e in
            rw after (
              store-Exists name dir vms images
                (λ metadata k.
                  rw
                    (sym (
                      created_image creator name image_name (join vm_store name) accepted options
                        dir metadata made k))
                    (accept_image creator name image_name backend options images accepted h))
                inv)
      ]

delete_vm-exists :
    {W : Type 0} (machine : Machine W) (remover : Remover W) (vm_store runner_path name : Bytes)
    (options : VmDeleteOptions) (vms : Vms) (images : Images) (w : W)
    → LeavesMetadata remover
    → ImagesExist (record { vms = vms; images = images })
    → ImagesExist (record {
      vms = (delete_vm machine remover vm_store runner_path name options vms w).1;
      images = images;
    })
unfolding delete_vm delete_entry put_back
delete_vm-exists machine remover vm_store runner_path name options vms images w part inv =
    elim (Bool-cases (valid_name name)) [
      | inr e ↦ rw e inv
      | inl e ↦ elim (Option-cases (lookup name vms)) [
        | inl f ↦ rw (e, f) inv
        | inr (not_directory, f) ↦ rw (e, f) inv
        | inr (directory dir, f) ↦
            let deleted = delete_dir machine remover vm_store runner_path name options dir w in
            elim (Option-cases deleted.1) [
              | inl g ↦ rw (e, f, put_back, g) (erase-exists name vms images inv)
              | inr (left, g) ↦
                  rw (e, f, put_back, g)
                    (store-Exists name left vms images
                      (λ metadata k. inv.exists name dir metadata f (
                        delete_dir-Leaves machine remover part vm_store runner_path name options dir
                          w left metadata g k))
                      inv)
            ]
      ]
    ]

-- one call of the manager, and any number of them
pub data StoreStep : Stores → Stores → Type 1 where
  creates :
      (stores : Stores) (creator : Creator) (vm_store name image_name backend : Bytes)
      (options : VmCreateOptions)
      → creator.fails remove_all ≡ false
      → StoreStep stores (record stores {
        vms =
            (create_from_image creator vm_store name image_name backend options stores.images
              stores.vms).1;
      })
  deletes :
      (stores : Stores) (W : Type 0) (machine : Machine W) (remover : Remover W) (w : W)
      (vm_store runner_path name : Bytes) (options : VmDeleteOptions)
      → LeavesMetadata remover
      → StoreStep stores (record stores {
        vms = (delete_vm machine remover vm_store runner_path name options stores.vms w).1;
      })
  deletes_image :
      (stores : Stores) (remover : ImageRemover) (name : Bytes)
      → StoreStep stores
          (record stores { images = (delete_image remover name false stores.vms stores.images).1 })

pub data Reaches : Stores → Stores → Type 1 where
  here : (stores : Stores) → Reaches stores stores
  later :
      (first middle last : Stores)
      → Reaches first middle
      → StoreStep middle last
      → Reaches first last

step-exists :
    (before after : Stores) → StoreStep before after → ImagesExist before → ImagesExist after
step-exists _ _ (creates stores creator vm_store name image_name backend options removable) inv =
    create-exists creator vm_store name image_name backend options stores.vms stores.images
      removable inv
step-exists _ _ (deletes stores W machine remover w vm_store runner_path name options part) inv =
    delete_vm-exists machine remover vm_store runner_path name options stores.vms stores.images w
      part inv
step-exists _ _ (deletes_image stores remover name) inv =
    delete_image-exists remover name stores.vms stores.images inv

-- Whatever VMs are created from images and deleted, and whatever images are deleted without force, in
-- any order and each call with any result, where the directory of a failed creation can be removed
-- and what is left of a deleted directory has its metadata as they were or none: if the image of
-- every VM was in the store of images, it still is.
pub Reaches-ImagesExist :
    (first last : Stores) → Reaches first last → ImagesExist first → ImagesExist last
Reaches-ImagesExist _ _ (here stores) inv = inv
Reaches-ImagesExist _ _ (later first middle last steps step) inv =
    step-exists middle last step (Reaches-ImagesExist first middle steps inv)
