-- ===== src/Kubeconfig/Merge.antt =====
-- `MergeFile`: the file it leaves, and what a failure leaves.
use spind.Prelude.{
  >>=-eq-ok, Bytes, Result, [], ap, err, false, guard, inl, inr, ok, refl, some, str_eq, sym, ◌∙◌,
  ◌≡◌, ◌⊎◌,
}
use spind.Kubeconfig.{
  KubeconfigError, Document, MergeOptions, merge_document, no_single_entry, require_entry,
}
use spind.Kubeconfig.Documents.{Merged, merge_document-Merged}
use spind.Kubeconfig.Files.{
  file, Files, System, owner_only, lock_path, parse_content, read_file, unlock, merge_read,
  write_result, merge_file,
}
use spind.Kubeconfig.Atomic.{put_other, lock_path_other, MakesTemp, write_file_atomic-Replaces}
use spind.Kubeconfig.Lock.{
  locked_files, lock_cases, unlock_result, unlock_other, read_file_locked, read_file_written,
}

-- The YAML library reads back what it has written for a document, which is not blank.
abbrev pub ReadsBack : {V : Type 0} → System V → Document V → Type 0
ReadsBack os doc =
    (content : Bytes) → os.marshal doc ≡ some content → parse_content os content ≡ ok doc

pub err_ok : {E A : Type 0} {e : E} {a : A} {r : Result E A} → r ≡ err e → r ≡ ok a → ⊥
err_ok h k = cc (h, k)

-- A merge that has gone through: the target's file holds the merged document.
pub record MergedFile {V : Type 0} (os : System V) (target_path source_path name : Bytes)
    (options : MergeOptions) (files files' : Files) : Type 0 where
  pub source : Document V
  pub target : Document V
  pub doc : Document V
  pub source_read : read_file os source_path files ≡ ok source
  pub target_read : read_file os target_path files ≡ ok target
  pub merged : Merged options source target name doc
  pub content : Bytes
  pub printed : os.marshal doc ≡ some content
  pub node : files' target_path ≡ file owner_only content
  pub read_again : read_file os target_path files' ≡ parse_content os content

module _ {V : Type 0} (os : System V) (temp : MakesTemp os) (target_path source_path name : Bytes)
    (options : MergeOptions) (files : Files)
    (source_free : str_eq (lock_path target_path) source_path ≡ false) where
  abbrev start : Files
  start = locked_files target_path files

  merge_read_ok :
      {doc : Document V}
      → merge_read os options target_path source_path name start ≡ ok doc
      → (source target : Document V) × (read_file os source_path files ≡ ok source)
        × (read_file os target_path files ≡ ok target)
        × (merge_document options source target name ≡ ok doc)
  unfolding merge_read
  merge_read_ok h =
      let (source, source_ok, h1) = >>=-eq-ok (read_file os source_path start) _ h in
      let (_, _, h2) = >>=-eq-ok (guard (require_entry source name) no_single_entry) _ h1 in
      let (target, target_ok, made) = >>=-eq-ok (read_file os target_path start) _ h2 in
      (
        source,
        target,
        sym (read_file_locked os target_path source_path files source_free) ∙ source_ok,
        sym (read_file_locked os target_path target_path files (lock_path_other target_path))
            ∙ target_ok,
        made,
      )

  merged_file :
      {doc : Document V} {files' : Files}
      → merge_read os options target_path source_path name start ≡ ok doc
      → (content : Bytes) → os.marshal doc ≡ some content
      → files' target_path ≡ file owner_only content
      → MergedFile os target_path source_path name options files files'
  merged_file {doc} {files'} h content printed node =
      let (source, target, source_ok, target_ok, made) = merge_read_ok h in
      record {
        source = source;
        target = target;
        doc = doc;
        source_read = source_ok;
        target_read = target_ok;
        merged = merge_document-Merged options source target name doc made;
        content = content;
        printed = printed;
        node = node;
        read_again = read_file_written os target_path content files files' target_ok node;
      }

  abbrev out : Result KubeconfigError (Unit {0}) × Files
  out = merge_file os target_path source_path name options files

  -- the step behind the lock, for what it has read
  abbrev step : Result KubeconfigError (Document V) → Result KubeconfigError (Unit {0}) × Files
  step r = write_result os target_path r start

  step_kept :
      (r : Result KubeconfigError (Document V)) (e : KubeconfigError)
      → (step r).0 ≡ err e
      → (step r).1 target_path ≡ files target_path
  step_kept (err e') e h =
      put_other (lock_path target_path) target_path (file owner_only []) files
        (lock_path_other target_path)
  step_kept (ok doc) e h =
      (write_file_atomic-Replaces os temp target_path doc start).kept e h
      ∙ put_other (lock_path target_path) target_path (file owner_only []) files
          (lock_path_other target_path)

  step_done :
      (r : Result KubeconfigError (Document V))
      → (step r).0 ≡ ok tt
      → (doc : Document V) × (r ≡ ok doc)
        × (content : Bytes) × (os.marshal doc ≡ some content)
        × ((step r).1 target_path ≡ file owner_only content)
  step_done (err e) h = elim (err_ok refl h) [ ]
  step_done (ok doc) h =
      let (content, printed, node) =
        (write_file_atomic-Replaces os temp target_path doc start).written h in
      (doc, refl, content, printed, node)

  abbrev read_result : Result KubeconfigError (Document V)
  read_result = merge_read os options target_path source_path name start

  merge_cases :
      ((e : KubeconfigError) × (out ≡ (err e, files)))
      ⊎ (out ≡ unlock os target_path (step read_result))
  unfolding merge_file
  merge_cases =
      lock_cases os target_path
        (λ files.
          write_result os target_path (merge_read os options target_path source_path name files)
            files)
        files

  -- Where the temporary file has a name of its own and the source is not the lock file: if
  -- `MergeFile` returns no error, it could read both files, and the target's file, for its owner
  -- only, holds what YAML makes of the merged document, and a later read parses that.
  pub merge_file-MergedFile :
      out.0 ≡ ok tt → MergedFile os target_path source_path name options files out.1
  merge_file-MergedFile h = elim merge_cases [
    | inl (e, refused) ↦ elim (err_ok (ap (λ t. t.0) refused) h) [ ]
    | inr ran ↦
        let stepped =
          sym (ap (λ t. t.0) ran ∙ unlock_result os target_path (step read_result)) ∙ h in
        let (doc, is_read, content, printed, node) = step_done read_result stepped in
        merged_file is_read content printed (
          ap (λ t. t.1 target_path) ran
          ∙ unlock_other os target_path target_path (step read_result) (lock_path_other target_path)
          ∙ node)
  ]

  -- Where the temporary file has a name of its own and the source is not the lock file: if
  -- `MergeFile` returns an error, whichever call failed, the target's file is as it was.
  pub merge_file_kept :
      (e : KubeconfigError) → out.0 ≡ err e → out.1 target_path ≡ files target_path
  merge_file_kept e h = elim merge_cases [
    | inl (e', refused) ↦ ap (λ t. t.1 target_path) refused
    | inr ran ↦
        let stepped =
          sym (ap (λ t. t.0) ran ∙ unlock_result os target_path (step read_result)) ∙ h in
        ap (λ t. t.1 target_path) ran
        ∙ unlock_other os target_path target_path (step read_result) (lock_path_other target_path)
        ∙ step_kept read_result e stepped
  ]
