-- ===== src/Kubeconfig/Removed.antt =====
-- The document that an unmerge makes.
use spind.Prelude.{
  All, Bool, Bool-cases, Bytes, List, [], ap, arith, false, if◌then◌else◌, inl, inr, is_empty,
  length, refl, str_eq, str_eq_iff, str_eq_self, true, ◌<◌, ◌||◌, ◌∷◌, ◌≡◌,
}
use spind.Kubeconfig.{
  Cluster, User, Context, Document, find, cluster_name, user_name, context_name, has_entry, filter,
  unmerged, entry_referenced_by_other_context, referenced_in,
}
use spind.Kubeconfig.Entries.{find-filter, find-filter_other}
use spind.Kubeconfig.Documents.{SameEntry}

str_eq_flip : (a b : Bytes) → str_eq a b ≡ false → str_eq b a ≡ false
str_eq_flip a b h = elim (Bool-cases (str_eq b a)) [
  | inl e ↦ cc (h, str_eq_self b, ap (λ t. str_eq t b) ((str_eq_iff b a).0 e))
  | inr e ↦ e
]

not_referenced :
    (a b c : Bool) → (if a || b then true else c) ≡ false → (a ≡ false) × (b ≡ false) × (c ≡ false)
not_referenced a b c h = ground arith

found_other :
    {A : Type 0} (key : A → Bytes) (xs : List A) (name other : Bytes)
    → str_eq other name ≡ false
    → 0 < length (find key xs other)
    → 0 < length (find key (filter key xs name) other)
found_other key xs name other h k =
    rw (find-filter_other key xs name other (str_eq_flip other name h)) k

current_removed :
    (current name : Bytes)
    → is_empty name ≡ false
    → str_eq (if str_eq current name then [] else current) name ≡ false
unfolding is_empty str_eq
current_removed current [] h = cc h
current_removed current (c ∷ cs) h = elim (Bool-cases (str_eq current (c ∷ cs))) [
  | inl e ↦ rw e refl
  | inr e ↦ rw (e, e) refl
]

module _ {V : Type 0} where
  -- Every context names a cluster and a user that are there.
  abbrev Found : List (Cluster V) → List (User V) → Context V → Type 0
  Found clusters users c =
      (0 < length (find cluster_name clusters c.cluster))
      × (0 < length (find user_name users c.user))

  abbrev pub Resolves : Document V → Type 0
  Resolves doc = All (Found doc.clusters doc.users) doc.contexts

  kept_contexts :
      (clusters : List (Cluster V)) (users : List (User V)) (contexts : List (Context V))
      (name : Bytes)
      → referenced_in contexts name ≡ false
      → All (Found clusters users) contexts
      → All
          (Found (filter cluster_name clusters name) (filter user_name users name))
          (filter context_name contexts name)
  unfolding filter referenced_in
  kept_contexts clusters users [] name h all = tt
  kept_contexts clusters users (c ∷ cs) name h (this, rest) =
      elim (Bool-cases (str_eq c.name name)) [
        | inl same ↦ rw same (kept_contexts clusters users cs name (rw same at h) rest)
        | inr other ↦
            let (no_cluster, no_user, unreferenced) = not_referenced _ _ _ (rw other at h) in
            rw other (
              (
                found_other cluster_name clusters name c.cluster no_cluster this.0,
                found_other user_name users name c.user no_user this.1,
              ),
              kept_contexts clusters users cs name unreferenced rest,
            )
      ]

  -- If every context of a document names a cluster and a user that are there, an unmerge that is
  -- not refused leaves it so.
  pub unmerged-Resolves :
      (doc : Document V) (name : Bytes)
      → entry_referenced_by_other_context doc name ≡ false
      → Resolves doc
      → Resolves (unmerged doc name)
  unmerged-Resolves doc name h all = kept_contexts doc.clusters doc.users doc.contexts name h all

  -- An unmerge leaves the name no entry and no current context, and all the other names what they
  -- had.
  pub record Unmerged (before : Document V) (name : Bytes) (doc : Document V) : Type 0 where
    pub no_entry : has_entry doc name ≡ false
    pub others : (other : Bytes) → str_eq name other ≡ false → SameEntry doc before other
    pub not_current : is_empty name ≡ false → str_eq doc.current_context name ≡ false
    pub other_current :
        str_eq before.current_context name ≡ false → doc.current_context ≡ before.current_context

  -- What the code writes to unmerge a name is this.
  pub unmerged-Unmerged :
      (before : Document V) (name : Bytes) → Unmerged before name (unmerged before name)
  unfolding is_empty
  unmerged-Unmerged before name = record {
    no_entry =
        rw
          (
            find-filter cluster_name before.clusters name,
            find-filter user_name before.users name,
            find-filter context_name before.contexts name,
          )
          refl;
    others = λ other h. (
      find-filter_other cluster_name before.clusters name other h,
      find-filter_other user_name before.users name other h,
      find-filter_other context_name before.contexts name other h,
    );
    not_current = current_removed before.current_context name;
    other_current = λ h. rw h refl;
  }
