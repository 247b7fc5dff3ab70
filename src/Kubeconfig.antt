-- ===== src/Kubeconfig.antt =====
-- internal/spind/kubeconfig/mergefile.go: kubeconfig documents and the entries that a name has in
-- them. What YAML leaves open (`map[string]any`, `any`) is the type `V`, which no code looks into.
use spind.Prelude.{
  Bool, Bytes, List, Option, Result, [], codes, false, guard, if◌then◌else◌, is_empty, length, ltb,
  none, not, ok, str_eq, true, ◌&&◌, ◌++◌, ◌==◌, ◌||◌, ◌∷◌, ◌>>◌,
}
pub mod Entries
pub mod Documents
pub mod Removed
pub mod Paths
pub mod Files
pub mod Atomic
pub mod Lock
pub mod Merge
pub mod Unmerge

pub record Cluster (V : Type 0) : Type 0 where
  pub name : Bytes
  pub server : Bytes
  pub certificate_authority_data : Bytes
  pub insecure_skip_tls_verify : Bool
  pub ref_other_fields : V
  pub other_fields : V

pub record User (V : Type 0) : Type 0 where
  pub name : Bytes
  pub user : V
  pub other_fields : V

pub record Context (V : Type 0) : Type 0 where
  pub name : Bytes
  pub cluster : Bytes
  pub user : Bytes
  pub ref_other_fields : V
  pub other_fields : V

pub record Extension (V : Type 0) : Type 0 where
  pub name : Bytes
  pub extension : V

pub record Document (V : Type 0) : Type 0 where
  pub api_version : Bytes
  pub kind : Bytes
  pub clusters : List (Cluster V)
  pub users : List (User V)
  pub contexts : List (Context V)
  pub current_context : Bytes
  pub preferences : Option V
  pub extensions : List (Extension V)
  pub other_fields : Option V

-- `Document{}`
abbrev pub empty_document : {V : Type 0} → Document V
empty_document = record {
  api_version = [];
  kind = [];
  clusters = [];
  users = [];
  contexts = [];
  current_context = [];
  preferences = none;
  extensions = [];
  other_fields = none;
}

-- The three copies of `findKubeconfig...` and of `filterKubeconfig...` differ in the entry's type
-- alone; `key` is its `Name` field.
unfoldable pub find : {A : Type 0} → (A → Bytes) → List A → Bytes → List A
find key [] name = []
find key (x ∷ xs) name =
    let rest = find key xs name in if str_eq (key x) name then x ∷ rest else rest

unfoldable pub filter : {A : Type 0} → (A → Bytes) → List A → Bytes → List A
filter key [] name = []
filter key (x ∷ xs) name =
    let rest = filter key xs name in if str_eq (key x) name then rest else x ∷ rest

module _ {V : Type 0} where
  abbrev pub cluster_name : Cluster V → Bytes
  cluster_name x = x.name

  abbrev pub user_name : User V → Bytes
  user_name x = x.name

  abbrev pub context_name : Context V → Bytes
  context_name x = x.name

  abbrev pub find_clusters : Document V → Bytes → List (Cluster V)
  find_clusters doc name = find cluster_name doc.clusters name

  abbrev pub find_users : Document V → Bytes → List (User V)
  find_users doc name = find user_name doc.users name

  abbrev pub find_contexts : Document V → Bytes → List (Context V)
  find_contexts doc name = find context_name doc.contexts name

  -- whether the error of `requireEntry` is nil
  abbrev pub require_entry : Document V → Bytes → Bool
  require_entry doc name = not (
      not (length (find_clusters doc name) == 1)
      || not (length (find_users doc name) == 1)
      || not (length (find_contexts doc name) == 1))

  abbrev pub has_entry : Document V → Bytes → Bool
  has_entry doc name =
      ltb 0 (length (find_clusters doc name))
      || ltb 0 (length (find_users doc name))
      || ltb 0 (length (find_contexts doc name))

  abbrev pub append_entry : Document V → Document V → Bytes → Document V
  append_entry target source name = record target {
    clusters = target.clusters ++ find_clusters source name;
    users = target.users ++ find_users source name;
    contexts = target.contexts ++ find_contexts source name;
  }

  abbrev pub remove_entry : Document V → Bytes → Document V
  remove_entry doc name = record doc {
    clusters = filter cluster_name doc.clusters name;
    users = filter user_name doc.users name;
    contexts = filter context_name doc.contexts name;
  }

  unfoldable pub referenced_in : List (Context V) → Bytes → Bool
  referenced_in [] name = false
  referenced_in (x ∷ xs) name =
      let rest = referenced_in xs name in
      if str_eq x.name name
      then rest
      else if str_eq x.cluster name || str_eq x.user name
      then true
      else rest

  abbrev pub entry_referenced_by_other_context : Document V → Bytes → Bool
  entry_referenced_by_other_context doc name = referenced_in doc.contexts name

  abbrev pub normalize_header : Document V → Document V
  normalize_header doc = record doc {
    api_version = if is_empty doc.api_version then codes "v1" else doc.api_version;
    kind = if is_empty doc.kind then codes "Config" else doc.kind;
  }

pub record MergeOptions : Type 0 where
  pub replace : Bool
  pub set_current_context : Bool

-- Why a merge or an unmerge returns an error.
pub data KubeconfigError : Type 0 where
  stat_failed is_a_directory read_failed parse_failed : KubeconfigError
  no_single_entry entry_exists entry_referenced : KubeconfigError
  marshal_failed mkdir_failed locked temp_failed chmod_failed write_failed close_failed :
      KubeconfigError
  rename_failed : KubeconfigError

module _ {V : Type 0} where
  abbrev pub with_current_context : MergeOptions → Document V → Bytes → Document V
  with_current_context options doc name = record doc {
    current_context = if options.set_current_context then name else doc.current_context;
  }

  -- what `MergeFile` makes of the two documents before it writes
  unfoldable pub merge_document :
      MergeOptions → Document V → Document V → Bytes → Result KubeconfigError (Document V)
  merge_document options source target name = do
    guard (require_entry source name) no_single_entry
    guard (not (not options.replace && has_entry target name)) entry_exists
    let target = append_entry (remove_entry target name) source name
    ok (normalize_header (with_current_context options target name))

  -- `removeEntry` in `UnmergeFile`, and the current context
  abbrev pub unmerged : Document V → Bytes → Document V
  unmerged doc name = record (remove_entry doc name) {
    current_context = if str_eq doc.current_context name then [] else doc.current_context;
  }
