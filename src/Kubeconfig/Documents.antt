-- ===== src/Kubeconfig/Documents.antt =====
-- The document that a merge makes, seen through the entries that each name has.
use spind.Prelude.{
  >>=-eq-ok, Bool, Bool-cases, Bytes, Result, arith, codes, false, guard, if◌then◌else◌, inl, inr,
  is_empty, not, ok, refl, str_eq, subst, true, ◌&&◌, ◌≡◌,
}
use spind.Kubeconfig.{
  Document, find_clusters, find_users, find_contexts, cluster_name, user_name, context_name,
  has_entry, require_entry, append_entry, remove_entry, normalize_header, with_current_context,
  MergeOptions, no_single_entry, entry_exists, merge_document,
}
use spind.Kubeconfig.Entries.{replace_entries_self, replace_entries_other, filter-replace_entries}

allowed_entry :
    (replace has : Bool)
    → guard (not (not replace && has)) entry_exists ≡ ok tt
    → replace ≡ false
    → has ≡ false
allowed_entry replace has h r = ground (arith, h, r)

required_entry : (b : Bool) → guard b no_single_entry ≡ ok tt → b ≡ true
required_entry b h = ground (arith, h)

header_set : (a b : Bytes) → is_empty b ≡ false → is_empty (if is_empty a then b else a) ≡ false
header_set a b h = elim (Bool-cases (is_empty a)) [ inl e ↦ rw e h | inr e ↦ rw (e, e) refl ]

ok_inj : {E A : Type 0} {r : Result E A} {x y : A} → r ≡ ok x → r ≡ ok y → x ≡ y
ok_inj h k = cc (h, k)

set_twice :
    (set : Bool) (name old : Bytes)
    → (if set then name else (if set then name else old)) ≡ (if set then name else old)
set_twice true name old = refl
set_twice false name old = refl

module _ {V : Type 0} where
  -- The two documents have the same entries of one name, in the same order.
  abbrev pub SameEntry : Document V → Document V → Bytes → Type 0
  SameEntry d e name =
      (find_clusters d name ≡ find_clusters e name)
      × (find_users d name ≡ find_users e name)
      × (find_contexts d name ≡ find_contexts e name)

  abbrev replaced : Document V → Document V → Bytes → Document V
  replaced target source name = append_entry (remove_entry target name) source name

  replaced-SameEntry :
      (target source : Document V) (name : Bytes)
      → SameEntry (replaced target source name) source name
  replaced-SameEntry target source name = (
    replace_entries_self cluster_name target.clusters source.clusters name,
    replace_entries_self user_name target.users source.users name,
    replace_entries_self context_name target.contexts source.contexts name,
  )

  replaced_other :
      (target source : Document V) (name other : Bytes)
      → str_eq name other ≡ false
      → SameEntry (replaced target source name) target other
  replaced_other target source name other h = (
    replace_entries_other cluster_name target.clusters source.clusters name other h,
    replace_entries_other user_name target.users source.users name other h,
    replace_entries_other context_name target.contexts source.contexts name other h,
  )

  -- What a merge of `name` from `source` into `target` promises of the document it makes.
  pub record Merged (options : MergeOptions) (source target : Document V) (name : Bytes)
      (doc : Document V) : Type 0 where
    pub entry : SameEntry doc source name
    pub one_entry : require_entry doc name ≡ true
    pub others : (other : Bytes) → str_eq name other ≡ false → SameEntry doc target other
    pub not_replaced : options.replace ≡ false → has_entry target name ≡ false
    pub current :
        doc.current_context ≡ (if options.set_current_context then name else target.current_context)
    pub has_version : is_empty doc.api_version ≡ false
    pub has_kind : is_empty doc.kind ≡ false

  abbrev made : MergeOptions → Document V → Document V → Bytes → Document V
  made options source target name =
      normalize_header (with_current_context options (replaced target source name) name)

  Merged_made :
      (options : MergeOptions) (source target : Document V) (name : Bytes)
      → require_entry source name ≡ true
      → (options.replace ≡ false → has_entry target name ≡ false)
      → Merged options source target name (made options source target name)
  unfolding is_empty
  Merged_made options source target name required allowed =
      let same = replaced-SameEntry target source name in
      let others = replaced_other target source name in
      record {
        entry = same;
        one_entry = rw (same.0, same.1, same.2) required;
        others = others;
        not_replaced = allowed;
        current = refl;
        has_version = header_set target.api_version (codes "v1") refl;
        has_kind = header_set target.kind (codes "Config") refl;
      }

  -- A merge that is not refused makes the document above, of a source that has the entry.
  merge_document-made :
      (options : MergeOptions) (source target : Document V) (name : Bytes) {doc : Document V}
      → merge_document options source target name ≡ ok doc
      → (require_entry source name ≡ true)
        × (options.replace ≡ false → has_entry target name ≡ false)
        × (made options source target name ≡ doc)
  unfolding merge_document
  merge_document-made options source target name h =
      let (_, required, h1) = >>=-eq-ok (guard (require_entry source name) no_single_entry) _ h in
      let (_, allowed, h2) =
        >>=-eq-ok (guard (not (not options.replace && has_entry target name)) entry_exists) _ h1 in
      (required_entry _ required, allowed_entry _ _ allowed, ok_inj refl h2)

  -- A merge that goes through puts the source's single entry of the name in place of the target's,
  -- and keeps every other name's entries, in their order; it goes through without `Replace` only if
  -- the target had no such entry. The context changes if it was asked for, and the header is set.
  pub merge_document-Merged :
      (options : MergeOptions) (source target : Document V) (name : Bytes) (doc : Document V)
      → merge_document options source target name ≡ ok doc
      → Merged options source target name doc
  merge_document-Merged options source target name doc h =
      let (required, allowed, e) = merge_document-made options source target name h in
      subst (Merged options source target name) e
        (Merged_made options source target name required allowed)

  made_twice :
      (options : MergeOptions) (source target : Document V) (name : Bytes)
      → made options source (made options source target name) name ≡ made options source target name
  unfolding is_empty
  made_twice options source target name =
      rw
        (
          filter-replace_entries cluster_name target.clusters source.clusters name,
          filter-replace_entries user_name target.users source.users name,
          filter-replace_entries context_name target.contexts source.contexts name,
          header_set target.api_version (codes "v1") refl,
          header_set target.kind (codes "Config") refl,
          set_twice options.set_current_context name target.current_context,
        )
        refl

  -- A merge of what a merge has made, with `Replace`, changes nothing.
  pub merge_document_twice :
      (options : MergeOptions) (source target : Document V) (name : Bytes) (doc : Document V)
      → merge_document options source target name ≡ ok doc
      → merge_document (record options { replace = true }) source doc name ≡ ok doc
  unfolding merge_document
  merge_document_twice options source target name doc h =
      let (required, _, e) = merge_document-made options source target name h in
      rw (← e, required, made_twice options source target name) refl
