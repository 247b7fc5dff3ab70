-- ===== src/Kubeconfig/Unmerge.antt =====
-- `UnmergeFile`: the file it leaves.
use spind.Prelude.{
  Bool, Bool-cases, Bytes, Option-cases, Result, [], ap, err, false, inl, inr, ok, refl, some,
  str_eq_iff, sym, true, ℕ, ◌∙◌, ◌≡◌, ◌⊎◌,
}
use spind.Kubeconfig.{
  KubeconfigError, stat_failed, Document, normalize_header, unmerged,
  entry_referenced_by_other_context,
}
use spind.Kubeconfig.Removed.{Unmerged, unmerged-Unmerged}
use spind.Kubeconfig.Files.{
  file, Files, stat, System, owner_only, lock_path, read_file, write_file_atomic, unlock,
  documents_equal, unmerge_document, unmerge_result, unmerge_file, flagged,
}
use spind.Kubeconfig.Atomic.{put_other, lock_path_other, MakesTemp, write_file_atomic-Replaces}
use spind.Kubeconfig.Lock.{
  locked_files, lock_cases, unlock_result, unlock_other, read_file_locked, read_file_written,
}
use spind.Kubeconfig.Merge.{ReadsBack, err_ok}

module _ {V : Type 0} (os : System V) where
  -- Documents that print alike are the same, if both are read back.
  documents_equal_same :
      (a b : Document V) → ReadsBack os a → ReadsBack os b → documents_equal os a b ≡ true → a ≡ b
  unfolding documents_equal
  documents_equal_same a b back_a back_b h = elim (Option-cases (os.marshal a)) [
    | inl e ↦ cc (rw (documents_equal, e) at h)
    | inr (x, ex) ↦ elim (Option-cases (os.marshal b)) [
      | inl e ↦ cc (rw (documents_equal, ex, e) at h)
      | inr (y, ey) ↦
          let same = (str_eq_iff x y).0 (rw (documents_equal, ex, ey) at h) in
          cc (back_a x ex, back_b y ey, same)
    ]
  ]

  read_file_same :
      (path : Bytes) (files files' : Files)
      → files' path ≡ files path
      → read_file os path files' ≡ read_file os path files
  unfolding read_file
  read_file_same path files files' h = rw h refl

module _ {V : Type 0} (os : System V) (temp : MakesTemp os) (path name : Bytes) (files : Files)
    (doc : Document V) (is_read : read_file os path files ≡ ok doc) where
  abbrev start : Files
  start = locked_files path files

  abbrev next : Document V
  next = normalize_header (unmerged doc name)

  next-Unmerged : Unmerged doc name next
  next-Unmerged =
      let u = unmerged-Unmerged doc name in
      record {
        no_entry = u.no_entry;
        others = u.others;
        not_current = u.not_current;
        other_current = u.other_current;
      }

  -- what is read from the file afterwards, without the entry
  abbrev Left : Files → Type 0
  Left files' =
      (after : Document V) × (read_file os path files' ≡ ok after) × Unmerged doc name after

  abbrev step : Result KubeconfigError Bool × Files
  step = unmerge_document os path name doc start

  step_referenced :
      (changed : Bool) → step.0 ≡ ok changed → entry_referenced_by_other_context doc name ≡ false
  unfolding unmerge_document
  step_referenced changed h = elim (Bool-cases (entry_referenced_by_other_context doc name)) [
    | inl e ↦ cc (rw e at h)
    | inr e ↦ e
  ]

  -- A write behind the lock whose result is flagged.
  flagged_written :
      (r : Result KubeconfigError (Unit {0}) × Files) (changed : Bool)
      → (flagged os true r).0 ≡ ok changed
      → (r.0 ≡ ok tt) × ((flagged os true r).1 ≡ r.1)
  unfolding flagged
  flagged_written (ok x, files') changed h = (refl, refl)
  flagged_written (err e, files') changed h = elim (err_ok refl h) [ ]

  -- `entryReferencedByOtherContext` has let the entry go: the step wrote the document without it, or
  -- found that it prints alike.
  step_cases :
      (changed : Bool)
      → step.0 ≡ ok changed
      → ((documents_equal os doc (unmerged doc name) ≡ true) × (step.1 path ≡ start path))
        ⊎ ((content : Bytes) × (os.marshal next ≡ some content)
            × (step.1 path ≡ file owner_only content))
  unfolding unmerge_document
  step_cases changed h = elim (Bool-cases (entry_referenced_by_other_context doc name)) [
    | inl e ↦ cc (rw e at h)
    | inr e ↦ elim (Bool-cases (documents_equal os doc (unmerged doc name))) [
      | inl same ↦ inl (same, rw (e, same) refl)
      | inr differ ↦
          let wrote = write_file_atomic os path next start in
          let (done, files_are) = flagged_written wrote changed (rw (e, differ) at h) in
          let (content, printed, node) =
            (write_file_atomic-Replaces os temp path next start).written done in
          inr (content, printed, rw (e, differ) (ap (λ f. f path) files_are ∙ node))
    ]
  ]

  abbrev out : Result KubeconfigError Bool × Files
  out = unmerge_file os path name files

  unmerge_cases :
      (mode : ℕ) (content : Bytes)
      → files path ≡ file mode content
      → ((e : KubeconfigError) × (out ≡ (err e, files))) ⊎ (out ≡ unlock os path step)
  unfolding unmerge_file
  unmerge_cases mode content node = elim (Bool-cases (os.fails stat path)) [
    | inl e ↦ inl (stat_failed, rw e refl)
    | inr e ↦
        elim (lock_cases os path
          (λ files. unmerge_result os path name (read_file os path files) files) files) [
            | inl (e', refused) ↦ inl (e', rw (e, node) refused)
            | inr ran ↦ inr (
                rw (e, node)
                  (ran
                    ∙ ap (λ r. unlock os path (unmerge_result os path name r start))
                        (read_file_locked os path path files (lock_path_other path) ∙ is_read)))
          ]
  ]

  left :
      (changed : Bool)
      → step.0 ≡ ok changed
      → ReadsBack os doc
      → ReadsBack os (unmerged doc name)
      → ReadsBack os next
      → out.1 path ≡ step.1 path
      → Left out.1
  left changed h back back_unmerged back_next at = elim (step_cases changed h) [
    | inl (same, kept) ↦
        let unlocked =
          put_other (lock_path path) path (file owner_only []) files (lock_path_other path) in
        (
          unmerged doc name,
          read_file_same os path files out.1 (at ∙ kept ∙ unlocked)
              ∙ is_read
              ∙ ap (λ d. ok d)
                  (documents_equal_same os doc (unmerged doc name) back back_unmerged same),
          unmerged-Unmerged doc name,
        )
    | inr (content, printed, node) ↦ (
      next,
      read_file_written os path content files out.1 is_read (at ∙ node) ∙ back_next content printed,
      next-Unmerged,
    )
  ]

  -- Where the temporary file has a name of its own and the YAML library reads back what it prints
  -- for `doc` and for `doc` without the name: if `UnmergeFile` returns no error for a file with
  -- `doc` in it, no other context referred to the name, and the file now has the document without
  -- the name's entry, whether or not it was written.
  pub unmerge_file-Unmerged :
      (mode : ℕ) (content : Bytes)
      → files path ≡ file mode content
      → ReadsBack os doc
      → ReadsBack os (unmerged doc name)
      → ReadsBack os next
      → (changed : Bool) → out.0 ≡ ok changed
      → (entry_referenced_by_other_context doc name ≡ false) × Left out.1
  unmerge_file-Unmerged mode content node back back_unmerged back_next changed h =
      elim (unmerge_cases mode content node) [
        | inl (e, refused) ↦ elim (err_ok (ap (λ t. t.0) refused) h) [ ]
        | inr ran ↦
            let stepped = sym (ap (λ t. t.0) ran ∙ unlock_result os path step) ∙ h in
            let at =
              ap (λ t. t.1 path) ran ∙ unlock_other os path path step (lock_path_other path) in
            (step_referenced changed stepped, left changed stepped back back_unmerged back_next at)
      ]
