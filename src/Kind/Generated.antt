-- ===== src/Kind/Generated.antt =====
-- The kubeconfig that is generated for a VM, as the merge of kubeconfigs takes it.
use spind.Prelude.{
  Bytes, List, Option, [], arith, codes, map, ok, refl, some, str_eq_self, subst, true, ◌++◌, ◌∷◌,
  ◌≡◌,
}
use spind.Kubeconfig.{
  append_entry, remove_entry, normalize_header, with_current_context, Cluster, User, Context,
  Document, find, require_entry, MergeOptions, merge_document,
}
use spind.Kubeconfig.Removed.{Resolves}
use spind.Kind.{generated, generate_from, generate_kubeconfig}

module _ {V : Type 0} where
  -- It has one entry, of the VM's name, which is the current context and refers to itself, and whose
  -- server is the given one.
  pub record IsFor (name server_url : Bytes) (doc : Document V) : Type 0 where
    pub one_entry : require_entry doc name ≡ true
    pub resolves : Resolves doc
    pub current : doc.current_context ≡ name
    pub servers : map (λ c. c.server) doc.clusters ≡ server_url ∷ []

  generated-IsFor :
      (doc : Document V) (c : Cluster V) (u : User V) (x : Context V) (name server_url : Bytes)
      → IsFor name server_url (generated doc c u x name server_url)
  unfolding find
  generated-IsFor doc c u x name server_url =
      let same = str_eq_self name in
      record {
        one_entry = rw same refl;
        resolves = ((rw same (omega arith), rw same (omega arith)), tt);
        current = refl;
        servers = refl;
      }

  some_inj : {o : Option (Document V)} {a b : Document V} → o ≡ some a → o ≡ some b → a ≡ b
  some_inj h k = cc (h, k)

  generate_from-IsFor :
      (doc : Document V) (cs : List (Cluster V)) (us : List (User V)) (xs : List (Context V))
      (name server_url : Bytes) {out : Document V}
      → generate_from doc cs us xs name server_url ≡ some out
      → IsFor name server_url out
  generate_from-IsFor doc (c ∷ cs) (u ∷ us) (x ∷ xs) name server_url h =
      subst (IsFor name server_url) (some_inj refl h) (generated-IsFor doc c u x name server_url)
  generate_from-IsFor doc [] us xs name server_url h = cc h
  generate_from-IsFor doc (c ∷ cs) [] xs name server_url h = cc h
  generate_from-IsFor doc (c ∷ cs) (u ∷ us) [] name server_url h = cc h

  merge_accepts :
      (options : MergeOptions) (source target : Document V) (name : Bytes)
      → options.replace ≡ true
      → require_entry source name ≡ true
      → (doc : Document V) × (merge_document options source target name ≡ ok doc)
  unfolding merge_document
  merge_accepts options source target name replaces required =
      let merged = append_entry (remove_entry target name) source name in
      (normalize_header (with_current_context options merged name), rw (required, replaces) refl)

  -- The kubeconfig that is generated from a template for a VM has exactly one cluster, user and
  -- context of the VM's name, with the given server, and a merge of it with `Replace` goes through
  -- whatever the target holds.
  pub generate_kubeconfig-IsFor :
      (template : Document V) (vm_name server_url : Bytes) (out : Document V)
      (options : MergeOptions) (target : Document V)
      → generate_kubeconfig template vm_name server_url ≡ some out
      → options.replace ≡ true
      → let name = codes "spind-" ++ vm_name in
        IsFor name server_url out
        × ((doc : Document V) × (merge_document options out target name ≡ ok doc))
  unfolding generate_kubeconfig
  generate_kubeconfig-IsFor template vm_name server_url out options target h replaces =
      let name = codes "spind-" ++ vm_name in
      let is_for =
        generate_from-IsFor template template.clusters template.users template.contexts name
          server_url h in
      (is_for, merge_accepts options out target name replaces is_for.one_entry)
