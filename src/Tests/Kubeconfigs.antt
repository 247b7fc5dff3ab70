-- ===== src/Tests/Kubeconfigs.antt =====
-- A merge and an unmerge of an entry, with a YAML library that knows three documents.
use spind.Prelude.{
  Bytes, [], ap, arith, codes, err, false, if◌then◌else◌, is_empty, length, ok, refl, some, str_eq,
  sym, true, ◌++◌, ◌+◌, ◌∙◌, ◌∷◌, ◌≡◌,
}
use mathlib.Core.Option.{some-injective}
use spind.Text.Words.{trim_space, skip_spaces, space_size, matched, has_prefix, is_space}
use spind.Kubeconfig.{
  Cluster, User, Context, Document, empty_document, find, filter, MergeOptions, no_single_entry,
  merge_document, unmerged, referenced_in, entry_referenced_by_other_context,
}
use spind.Kubeconfig.Removed.{Resolves, unmerged-Resolves, Unmerged}
use spind.Kubeconfig.Files.{
  missing, file, Files, put, System, lock_path, is_missing, Step, parse_content, read_node,
  read_file, fill_and_rename, clean_up, write_file_atomic, unlock, with_kubeconfig_lock, merge_read,
  merge_file, unmerge_file, unmerge_document, flagged, documents_equal,
}
use spind.Kubeconfig.Atomic.{str_eq-longer, MakesTemp, Replaces, write_file_atomic-Replaces}
use spind.Kubeconfig.Merge.{ReadsBack, MergedFile, merge_file-MergedFile, merge_file_kept}
use spind.Kubeconfig.Unmerge.{unmerge_file-Unmerged}

abbrev vm : Bytes
vm = codes "vm"

abbrev cluster : Bytes → Cluster (Unit {0})
cluster name = record {
  name = name;
  server = codes "s";
  certificate_authority_data = [];
  insecure_skip_tls_verify = false;
  ref_other_fields = tt;
  other_fields = tt;
}

abbrev user : Bytes → User (Unit {0})
user name = record { name = name; user = tt; other_fields = tt }

abbrev context : Bytes → Context (Unit {0})
context name = record {
  name = name;
  cluster = name;
  user = name;
  ref_other_fields = tt;
  other_fields = tt;
}

abbrev cleared : Document (Unit {0})
cleared = record empty_document { api_version = codes "v1"; kind = codes "Config" }

abbrev of_vm : Document (Unit {0})
of_vm = record cleared {
  clusters = cluster vm ∷ [];
  users = user vm ∷ [];
  contexts = context vm ∷ [];
}

abbrev replacing : MergeOptions
replacing = record { replace = true; set_current_context = true }

-- It prints a document as the count of its clusters, and one.
abbrev os : System (Unit {0})
os = record {
  fails = λ call path. false;
  temp_name = λ files path. path ++ codes ".tmp";
  written = 0;
  marshal = λ doc. some ((65 + length doc.clusters) ∷ []);
  unmarshal = λ content. if str_eq content (65 ∷ []) then some cleared else some of_vm;
}

os-MakesTemp : MakesTemp os
os-MakesTemp = record { not_path = λ files path. str_eq-longer path (codes ".tmp") (omega arith) }

abbrev source_path : Bytes
source_path = codes "/vm"

abbrev target_path : Bytes
target_path = codes "/config"

abbrev files : Files
files = put source_path (file 384 (66 ∷ [])) (λ path. missing)

abbrev merged : Document (Unit {0})
merged = record of_vm { current_context = vm }

not_lock : str_eq (lock_path target_path) source_path ≡ false
unfolding str_eq
not_lock = refl

lock_free : files (lock_path target_path) ≡ missing
unfolding str_eq put
lock_free = refl

abbrev held_files : Files
held_files = put (lock_path target_path) (file 384 []) files

held : is_missing (held_files (lock_path target_path)) ≡ false
unfolding str_eq put
held = refl

vm_node : files source_path ≡ file 384 (66 ∷ [])
unfolding str_eq put
vm_node = refl

parses_vm : parse_content os (66 ∷ []) ≡ ok of_vm
unfolding trim_space skip_spaces space_size matched has_prefix is_space is_empty str_eq
parses_vm = refl

parses_cleared : parse_content os (65 ∷ []) ≡ ok cleared
unfolding trim_space skip_spaces space_size matched has_prefix is_space is_empty str_eq
parses_cleared = refl

back_of_vm : ReadsBack os of_vm
back_of_vm content h = ap (parse_content os) (sym (some-injective _ _ h)) ∙ parses_vm

back_cleared : ReadsBack os (unmerged of_vm vm)
unfolding filter str_eq
back_cleared content h = ap (parse_content os) (sym (some-injective _ _ h)) ∙ parses_cleared

merge_document_runs : merge_document replacing of_vm empty_document vm ≡ ok merged
unfolding merge_document find filter str_eq is_empty
merge_document_runs = refl

unreferenced : entry_referenced_by_other_context merged vm ≡ false
unfolding referenced_in str_eq
unreferenced = refl

merged-Resolves : Resolves merged
unfolding find str_eq
merged-Resolves = ((omega arith, omega arith), tt)

unmerged-Resolves_example : Resolves (unmerged merged vm)
unmerged-Resolves_example = unmerged-Resolves merged vm unreferenced merged-Resolves

write_file_atomic-Replaces_example :
    Replaces os target_path merged files (write_file_atomic os target_path merged files)
write_file_atomic-Replaces_example =
    write_file_atomic-Replaces os os-MakesTemp target_path merged files

merge_file_runs : (merge_file os target_path source_path vm replacing files).0 ≡ ok tt
unfolding merge_file with_kubeconfig_lock unlock merge_read read_file read_node merge_document find
    filter str_eq is_empty put write_file_atomic fill_and_rename clean_up trim_space skip_spaces
    space_size matched has_prefix is_space
merge_file_runs = refl

merge_file-MergedFile_example :
    MergedFile os target_path source_path vm replacing files
      (merge_file os target_path source_path vm replacing files).1
merge_file-MergedFile_example =
    merge_file-MergedFile os os-MakesTemp target_path source_path vm replacing files not_lock
      merge_file_runs

merge_file_refused :
    (merge_file os target_path source_path (codes "x") replacing files).0 ≡ err no_single_entry
unfolding merge_file with_kubeconfig_lock unlock merge_read read_file read_node merge_document find
    filter str_eq is_empty put write_file_atomic fill_and_rename clean_up trim_space skip_spaces
    space_size matched has_prefix is_space
merge_file_refused = refl

merge_file_kept_example :
    (merge_file os target_path source_path (codes "x") replacing files).1 target_path
    ≡ files target_path
merge_file_kept_example =
    merge_file_kept os os-MakesTemp target_path source_path (codes "x") replacing files not_lock
      no_single_entry merge_file_refused

abbrev step : Step (Unit {0})
step files = (ok tt, files)

unmerge_runs : (unmerge_file os source_path vm files).0 ≡ ok true
unfolding unmerge_file unmerge_document flagged documents_equal with_kubeconfig_lock unlock
    read_file read_node filter referenced_in str_eq is_empty put write_file_atomic fill_and_rename
    clean_up trim_space skip_spaces space_size matched has_prefix is_space
unmerge_runs = refl

vm_read : read_file os source_path files ≡ ok of_vm
unfolding read_file read_node str_eq put trim_space skip_spaces space_size matched has_prefix
    is_space is_empty
vm_read = refl

unmerge_file-Unmerged_example :
    (entry_referenced_by_other_context of_vm vm ≡ false)
    × ((after : Document (Unit {0})) × (read_file os source_path
            (unmerge_file os source_path vm files).1
          ≡ ok after)
        × Unmerged of_vm vm after)
unfolding is_empty
unmerge_file-Unmerged_example =
    unmerge_file-Unmerged os os-MakesTemp source_path vm files of_vm vm_read 384 (66 ∷ []) vm_node
      back_of_vm back_cleared back_cleared true unmerge_runs
