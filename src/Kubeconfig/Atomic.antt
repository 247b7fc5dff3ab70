-- ===== src/Kubeconfig/Atomic.antt =====
-- What a write leaves at each path, whichever call of it fails.
use spind.Prelude.{
  Bool-cases, Bytes, Option-cases, Result, [], ap, arith, codes, err, false, inl, inr, length,
  length-append, ok, refl, some, str_eq, str_eq_iff, str_eq_self, sym, true, ℕ, ◌++◌, ◌<◌, ◌∙◌, ◌≡◌,
}
use spind.Kubeconfig.{KubeconfigError, Document}
use spind.Kubeconfig.Files.{
  lock_path, is_missing, mkdir_all, create_temp, Node, missing, directory, file, Files, put,
  remove_temp, System, owner_only, fill_and_rename, clean_up, write_data, write_file_atomic,
}

pub put_other :
    (p q : Bytes) (n : Node) (files : Files) → str_eq p q ≡ false → put p n files q ≡ files q
unfolding put
put_other p q n files h = rw h refl

pub put_self : (p : Bytes) (n : Node) (files : Files) → put p n files p ≡ n
unfolding put
put_self p n files = rw (str_eq_self p) refl

longer : (path suffix : Bytes) → path ++ suffix ≡ path → 0 < length suffix → ⊥
longer path suffix h k =
    let p = length-append path suffix in let q = ap (length {A = ℕ}) h in omega (arith, p, q, k)

-- The name that `os.CreateTemp` chooses has the base name of `path` within it, and more around it.
pub record MakesTemp {V : Type 0} (os : System V) : Type 0 where
  pub not_path : (files : Files) (path : Bytes) → str_eq (os.temp_name files path) path ≡ false

-- The files after a replacement of `path` that ended in `r`: all of it or nothing.
abbrev pub replaced_at : {E : Type 0} → Bytes → Bytes → Files → Result E (Unit {0}) → Files
replaced_at path content files (ok x) = put path (file owner_only content) files
replaced_at path content files (err e) = files

replaced_other :
    (path content q : Bytes) (files : Files) (r : Result KubeconfigError (Unit {0}))
    → str_eq path q ≡ false
    → replaced_at path content files r q ≡ files q
replaced_other path content q files (ok x) h = put_other path q (file owner_only content) files h
replaced_other path content q files (err e) h = refl

pub str_eq-longer : (path suffix : Bytes) → 0 < length suffix → str_eq (path ++ suffix) path ≡ false
str_eq-longer path suffix h = elim (Bool-cases (str_eq (path ++ suffix) path)) [
  | inl e ↦ elim (longer path suffix ((str_eq_iff _ _).0 e) h) [ ]
  | inr e ↦ e
]

pub lock_path_other : (path : Bytes) → str_eq (lock_path path) path ≡ false
lock_path_other path = str_eq-longer path (codes ".lock") (omega arith)

is_missing_lem : (n : Node) → is_missing n ≡ true → n ≡ missing
is_missing_lem missing h = refl
is_missing_lem directory h = cc h
is_missing_lem (file mode content) h = cc h

module _ {V : Type 0} (os : System V) (path content tmp : Bytes) (files : Files) where
  abbrev filled : Result KubeconfigError (Unit {0}) × Files
  filled =
      clean_up os tmp (fill_and_rename os tmp path content (put tmp (file owner_only []) files))

  filled_at :
      (q : Bytes) → str_eq tmp q ≡ false → filled.1 q ≡ replaced_at path content files filled.0 q
  unfolding put fill_and_rename clean_up
  filled_at q h = ground (arith, h)

  filled_clean : os.fails remove_temp tmp ≡ false → filled.1 tmp ≡ missing
  unfolding put fill_and_rename clean_up
  filled_clean h = ground (arith, h, str_eq_self tmp)

module _ {V : Type 0} (os : System V) where
  -- A path that is not the temporary file's: it is as the result says.
  write_data_at :
      (path content q : Bytes) (files : Files)
      → str_eq (os.temp_name files path) q ≡ false
      → let out = write_data os path content files in
        out.1 q ≡ replaced_at path content files out.0 q
  write_data_at path content q files h =
      let at = filled_at os path content (os.temp_name files path) files q h in
      elim (Bool-cases (os.fails mkdir_all path)) [
        | inl e ↦ rw e refl
        | inr e ↦ elim (Bool-cases (os.fails create_temp path)) [
          | inl e' ↦ rw (e, e') refl
          | inr e' ↦ elim (Bool-cases (is_missing (files (os.temp_name files path)))) [
            | inl free ↦ rw (e, e', free) at
            | inr taken ↦ rw (e, e', taken) refl
          ]
        ]
      ]

  write_data_clean :
      (path content : Bytes) (files : Files)
      → os.fails remove_temp (os.temp_name files path) ≡ false
      → (write_data os path content files).1 (os.temp_name files path)
        ≡ files (os.temp_name files path)
  write_data_clean path content files h =
      let at = filled_clean os path content (os.temp_name files path) files h in
      elim (Bool-cases (os.fails mkdir_all path)) [
        | inl e ↦ rw e refl
        | inr e ↦ elim (Bool-cases (os.fails create_temp path)) [
          | inl e' ↦ rw (e, e') refl
          | inr e' ↦ elim (Bool-cases (is_missing (files (os.temp_name files path)))) [
            | inl free ↦
                rw (e, e', free) (at ∙ sym (is_missing_lem (files (os.temp_name files path)) free))
            | inr taken ↦ rw (e, e', taken) refl
          ]
        ]
      ]

-- What a replacement of `path` by `doc` leaves, for either result.
pub record Replaces {V : Type 0} (os : System V) (path : Bytes) (doc : Document V) (files : Files)
    (out : Result KubeconfigError (Unit {0}) × Files) : Type 0 where
  pub written :
      out.0 ≡ ok tt
      → (content : Bytes) × (os.marshal doc ≡ some content) × (out.1 path ≡ file owner_only content)
  pub kept : (e : KubeconfigError) → out.0 ≡ err e → out.1 path ≡ files path
  pub others :
      (q : Bytes)
      → str_eq path q ≡ false
      → str_eq (os.temp_name files path) q ≡ false
      → out.1 q ≡ files q
  pub no_temp :
      os.fails remove_temp (os.temp_name files path) ≡ false
      → out.1 (os.temp_name files path) ≡ files (os.temp_name files path)

module _ {V : Type 0} (os : System V) (temp : MakesTemp os) where
  write_data-Replaces :
      (path content : Bytes) (doc : Document V) (files : Files)
      → os.marshal doc ≡ some content
      → Replaces os path doc files (write_data os path content files)
  write_data-Replaces path content doc files printed =
      let out = write_data os path content files in
      let at = write_data_at os path content path files (temp.not_path files path) in
      record {
        written = λ h. (
          content,
          printed,
          at
              ∙ ap (λ r. replaced_at path content files r path) h
              ∙ put_self path (file owner_only content) files,
        );
        kept = λ e h. at ∙ ap (λ r. replaced_at path content files r path) h;
        others = λ q path_other h.
            write_data_at os path content q files h
            ∙ replaced_other path content q files out.0 path_other;
        no_temp = write_data_clean os path content files;
      }

  -- Where the temporary file has another name than `path`, and whichever call fails: the file at
  -- `path` is the new one, whole and for its owner only, when there is no error, and the old one
  -- when there is. No other file changes but the temporary one, whose name is left as it was if
  -- the file can be removed.
  pub write_file_atomic-Replaces :
      (path : Bytes) (doc : Document V) (files : Files)
      → Replaces os path doc files (write_file_atomic os path doc files)
  unfolding write_file_atomic
  write_file_atomic-Replaces path doc files = elim (Option-cases (os.marshal doc)) [
    | inl e ↦
        rw (write_file_atomic, e)
          (record {
            written = λ h. cc h;
            kept = λ e h. refl;
            others = λ q p h. refl;
            no_temp = λ h. refl;
          })
    | inr (content, e) ↦ rw (write_file_atomic, e) (write_data-Replaces path content doc files e)
  ]
