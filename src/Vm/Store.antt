-- ===== src/Vm/Store.antt =====
-- The directory of a VM: the JSON files that the manager reads, the two files of a configuration,
-- and the names of the other files in it. A store of VMs is the list of the entries of a directory.
use spind.Prelude.{
  Bool-cases, Bytes, List, Option, [], false, if◌then◌else◌, inl, inr, none, refl, some, str_eq,
  str_eq_iff, str_eq_self, ℕ, ◌∷◌, ◌≡◌,
}
use spind.Vm.{VmMetadata, JsonFile}
use spind.Vm.State.{VmState}
use spind.Vm.Config.{RunnerConfig, HypervisorConfig, ImageMetadata}

module _ {A : Type 0} where
  unfoldable pub lookup : Bytes → List (Bytes × A) → Option A
  lookup name [] = none
  lookup name ((key, entry) ∷ entries) =
      let rest = lookup name entries in if str_eq key name then some entry else rest

  unfoldable pub erase : Bytes → List (Bytes × A) → List (Bytes × A)
  erase name [] = []
  erase name ((key, entry) ∷ entries) =
      let rest = erase name entries in if str_eq key name then rest else (key, entry) ∷ rest

  unfoldable pub store : Bytes → A → List (Bytes × A) → List (Bytes × A)
  store name entry entries = (name, entry) ∷ erase name entries

  pub lookup-erase_self :
      (name : Bytes) (entries : List (Bytes × A)) → lookup name (erase name entries) ≡ none
  unfolding lookup erase
  lookup-erase_self name [] = refl
  lookup-erase_self name ((key, entry) ∷ entries) = elim (Bool-cases (str_eq key name)) [
    | inl e ↦ rw e (lookup-erase_self name entries)
    | inr e ↦ rw (e, lookup, e) (lookup-erase_self name entries)
  ]

  pub lookup-erase_other :
      (name other : Bytes) (entries : List (Bytes × A))
      → str_eq name other ≡ false
      → lookup other (erase name entries) ≡ lookup other entries
  unfolding lookup erase
  lookup-erase_other name other [] h = refl
  lookup-erase_other name other ((key, entry) ∷ entries) h = elim (Bool-cases (str_eq key name)) [
    | inl e ↦
        let same = (str_eq_iff key name).0 e in
        rw (same, str_eq_self name, h) (lookup-erase_other name other entries h)
    | inr e ↦ rw (e, lookup, lookup-erase_other name other entries h) refl
  ]

  pub lookup-store_self :
      (name : Bytes) (entry : A) (entries : List (Bytes × A))
      → lookup name (store name entry entries) ≡ some entry
  unfolding lookup store
  lookup-store_self name entry entries = rw (str_eq_self name) refl

  pub lookup-store_other :
      (name other : Bytes) (entry : A) (entries : List (Bytes × A))
      → str_eq name other ≡ false
      → lookup other (store name entry entries) ≡ lookup other entries
  unfolding lookup store
  lookup-store_other name other entry entries h = rw h (lookup-erase_other name other entries h)

pub record VmDir : Type 0 where
  pub metadata : JsonFile VmMetadata
  pub state : JsonFile VmState
  pub runner_config : JsonFile RunnerConfig
  pub hypervisor_config : JsonFile HypervisorConfig
  pub files : List Bytes

pub data VmEntry : Type 0 where
  not_directory : VmEntry
  directory : VmDir → VmEntry

abbrev pub Vms : Type 0
Vms = List (Bytes × VmEntry)

-- `size` is what `DirectorySize` finds, where it does not fail.
pub record ImageDir : Type 0 where
  pub metadata : JsonFile ImageMetadata
  pub files : List Bytes
  pub size : Option ℕ

pub data ImageEntry : Type 0 where
  image_not_directory : ImageEntry
  image_directory : ImageDir → ImageEntry

abbrev pub Images : Type 0
Images = List (Bytes × ImageEntry)
