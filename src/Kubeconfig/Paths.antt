-- ===== src/Kubeconfig/Paths.antt =====
-- internal/spind/kubeconfig/mergefile.go: the files that a merge or an unmerge considers. The
-- environment is a parameter; `abs` is `filepath.Abs`, and a path is joined to the home directory
-- without the cleaning of `filepath.Join`.
use spind.Prelude.{
  Bool-cases, Bytes, List, Option, Result, [], ap, arith, codes, err, false, if◌then◌else◌, inl,
  inr, is_empty, is_nil, none, not, ok, refl, some, str_eq_self, sym, true, ◌==◌, ◌>>=◌, ◌∷◌, ◌≡◌,
  ◌⊎◌,
}
use spind.Snapshot.{join}
use spind.Snapshot.Prune.{has_name}
use spind.Text.Words.{grow_word}
use spind.Vm.Logs.{unseen, all_distinct, unseen_distinct}
use spind.Kubeconfig.Files.{Node, missing, directory, file, Files, stat, System}

pub data PathError : Type 0 where
  no_absolute_path no_home unsupported_home_path no_paths stat_of_path_failed : PathError

-- `kubeconfig` is empty where the variable is not set.
pub record Environment : Type 0 where
  pub kubeconfig : Bytes
  pub home : Option Bytes
  pub abs : Bytes → Option Bytes

unfoldable pub absolute : Environment → Bytes → Result PathError Bytes
absolute env path = elim (env.abs path) [ none ↦ err no_absolute_path | some p ↦ ok p ]

unfoldable pub user_home : Environment → Result PathError Bytes
user_home env = elim env.home [ none ↦ err no_home | some home ↦ ok home ]

-- what follows `~`
unfoldable pub below_home : Bytes → Bytes → Result PathError Bytes
below_home home [] = ok home
below_home home (c ∷ cs) = if c == b'/' then ok (join home cs) else err unsupported_home_path

unfoldable pub expand_user_path : Environment → Bytes → Result PathError Bytes
expand_user_path env [] = absolute env []
expand_user_path env (c ∷ cs) =
    if not (c == b'~') then absolute env (c ∷ cs) else user_home env >>= λ home. below_home home cs

unfoldable pub default_global_kubeconfig_path : Environment → Result PathError Bytes
default_global_kubeconfig_path env = user_home env >>= λ home. ok (join home (codes ".kube/config"))

-- `strings.Split` at the list separator
unfoldable pub split_paths : Bytes → List Bytes
split_paths [] = [] ∷ []
split_paths (c ∷ cs) =
    let rest = split_paths cs in if c == b':' then [] ∷ rest else grow_word c rest

-- the paths of the variable, each once
unfoldable pub variable_paths : Environment → List Bytes
variable_paths env = if is_empty env.kubeconfig then [] else unseen [] (split_paths env.kubeconfig)

unfoldable pub implied_paths : Environment → List Bytes → Result PathError (List Bytes)
implied_paths env [] = default_global_kubeconfig_path env >>= λ path. ok (path ∷ [])
implied_paths env (path ∷ paths) = ok (path ∷ paths)

unfoldable pub candidate_paths : Environment → Bytes → Result PathError (List Bytes)
candidate_paths env explicit_path =
    if not (is_empty explicit_path)
    then (expand_user_path env explicit_path >>= λ path. ok (path ∷ []))
    else implied_paths env (variable_paths env)

pub data Stat : Type 0 where
  is_file is_directory is_not_there stat_fails : Stat

single_distinct : (path : Bytes) → all_distinct (path ∷ []) ≡ true
unfolding all_distinct has_name
single_distinct path = refl

variable_paths_distinct : (env : Environment) → all_distinct (variable_paths env) ≡ true
unfolding variable_paths all_distinct
variable_paths_distinct env = elim (Bool-cases (is_empty env.kubeconfig)) [
  | inl e ↦ rw e refl
  | inr e ↦ rw e (unseen_distinct [] (split_paths env.kubeconfig))
]

-- The paths of a candidate list: one at least, and each once.
abbrev IsCandidates : List Bytes → Type 0
IsCandidates paths = (is_nil paths ≡ false) × (all_distinct paths ≡ true)

single-IsCandidates :
    (r : Result PathError Bytes) (paths : List Bytes)
    → (r >>= λ path. ok (path ∷ [])) ≡ ok paths
    → IsCandidates paths
single-IsCandidates (err e) paths h = cc
single-IsCandidates (ok path) paths h =
    let same : path ∷ [] ≡ paths = cc in rw (sym same) (refl, single_distinct path)

implied-IsCandidates :
    (env : Environment) (listed paths : List Bytes)
    → all_distinct listed ≡ true
    → implied_paths env listed ≡ ok paths
    → IsCandidates paths
unfolding implied_paths
implied-IsCandidates env [] paths distinct h =
    single-IsCandidates (default_global_kubeconfig_path env) paths h
implied-IsCandidates env (p ∷ ps) paths distinct h =
    let same : p ∷ ps ≡ paths = cc in rw (sym same) (refl, distinct)

-- Where `CandidatePaths` returns no error, it returns one path at least, and each once.
pub candidate_paths_lem :
    (env : Environment) (explicit_path : Bytes) (paths : List Bytes)
    → candidate_paths env explicit_path ≡ ok paths
    → (is_nil paths ≡ false) × (all_distinct paths ≡ true)
unfolding candidate_paths
candidate_paths_lem env explicit_path paths h = elim (Bool-cases (is_empty explicit_path)) [
  | inr e ↦ single-IsCandidates (expand_user_path env explicit_path) paths (rw e at h)
  | inl e ↦
      implied-IsCandidates env (variable_paths env) paths (variable_paths_distinct env) (rw e at h)
]

module _ {V : Type 0} (os : System V) where
  abbrev pub stat_node : Node → Stat
  stat_node missing = is_not_there
  stat_node directory = is_directory
  stat_node (file mode content) = is_file

  unfoldable pub stat_path : Files → Bytes → Stat
  stat_path files path = if os.fails stat path then stat_fails else stat_node (files path)

  -- the loop, with the path that is taken where none is a file
  unfoldable pub first_file : Files → Bytes → List Bytes → Result PathError Bytes
  first_file files last [] = ok last
  first_file files last (path ∷ paths) =
      let rest = first_file files path paths in
      elim (stat_path files path) [
        | is_file ↦ ok path
        | stat_fails ↦ err stat_of_path_failed
        | is_directory ↦ rest
        | is_not_there ↦ rest
      ]

  unfoldable pub path_for_merge : Files → List Bytes → Result PathError Bytes
  path_for_merge files [] = err no_paths
  path_for_merge files (path ∷ []) = ok path
  path_for_merge files (path ∷ other ∷ paths) = first_file files path (path ∷ other ∷ paths)

  -- the first file of the paths, where there is one
  unfoldable pub file_among : Files → List Bytes → Option Bytes
  file_among files [] = none
  file_among files (path ∷ paths) =
      let rest = file_among files paths in
      elim (stat_path files path) [
        | is_file ↦ some path
        | stat_fails ↦ rest
        | is_directory ↦ rest
        | is_not_there ↦ rest
      ]

  stat_cases :
      (s : Stat) → (s ≡ is_file) ⊎ (s ≡ stat_fails) ⊎ (s ≡ is_directory) ⊎ (s ≡ is_not_there)
  stat_cases is_file = inl refl
  stat_cases stat_fails = inr (inl refl)
  stat_cases is_directory = inr (inr (inl refl))
  stat_cases is_not_there = inr (inr (inr refl))

  first_file_lem :
      (files : Files) (last : Bytes) (paths : List Bytes) (path : Bytes)
      → first_file files last paths ≡ ok path
      → (has_name path (last ∷ paths) ≡ true)
        × ((file_among files paths ≡ some path) ⊎ (file_among files paths ≡ none))
  unfolding first_file file_among has_name
  first_file_lem files last [] path h =
      let same : last ≡ path = cc in (rw same (ground (arith, str_eq_self path)), inr refl)
  first_file_lem files last (p ∷ paths) path h = elim (stat_cases (stat_path files p)) [
    | inl e ↦
        let same : p ≡ path = cc (rw (first_file, e) at h) in
        (rw same (ground (arith, str_eq_self path)), inl (rw (file_among, e) (ap some same)))
    | inr (inl e) ↦ cc (rw (first_file, e) at h)
    | inr (inr (inl e)) ↦
        let (among, found) = first_file_lem files p paths path (rw (first_file, e) at h) in
        (ground (arith, among), rw (file_among, e) found)
    | inr (inr (inr e)) ↦
        let (among, found) = first_file_lem files p paths path (rw (first_file, e) at h) in
        (ground (arith, among), rw (file_among, e) found)
  ]

  -- Where `PathForMerge` returns a path, it is one of the candidates, and it is the first of them that
  -- is a file, where one is.
  pub path_for_merge_lem :
      (files : Files) (paths : List Bytes) (path : Bytes)
      → path_for_merge files paths ≡ ok path
      → (has_name path paths ≡ true)
        × ((file_among files paths ≡ some path) ⊎ (file_among files paths ≡ none))
  unfolding path_for_merge file_among has_name
  path_for_merge_lem files [] path h = cc
  path_for_merge_lem files (p ∷ []) path h =
      let same : p ≡ path = cc in
      (
        rw same (ground (arith, str_eq_self path)),
        elim (stat_cases (stat_path files p)) [
          | inl e ↦ inl (rw (file_among, e) (ap some same))
          | inr (inl e) ↦ inr (rw (file_among, e) refl)
          | inr (inr (inl e)) ↦ inr (rw (file_among, e) refl)
          | inr (inr (inr e)) ↦ inr (rw (file_among, e) refl)
        ],
      )
  path_for_merge_lem files (p ∷ q ∷ paths) path h =
      let (among, found) = first_file_lem files p (p ∷ q ∷ paths) path h in
      (ground (arith, among), found)
