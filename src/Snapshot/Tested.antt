-- ===== src/Snapshot/Tested.antt =====
-- The health of `Inspect` as the tests that the code makes on the metadata and the artifacts.
use spind.Prelude.{
  All, Bool-cases, Bytes, List, Option, Option-cases, [], false, inl, inr, none, not, refl, some,
  true, ◌∷◌, ◌≡◌,
}
use spind.Snapshot.{
  Metadata, SnapshotDir, Health, healthy, invalid_metadata, unsupported_backend, missing_artifact,
  ArtifactInfo, inspect_artifacts, artifact_names, lacks_field, is_backend, metadata_health, worsen,
  artifacts_health, inspect, is_none,
}

-- what the code's own tests ask for
pub record Passes (dir : SnapshotDir) : Type 0 where
  pub metadata : Metadata
  pub readable : dir.metadata ≡ some metadata
  pub fields_set : lacks_field metadata ≡ false
  pub known_backend : is_backend metadata.backend ≡ true
  pub all_found : All (λ name. is_none (dir.file_size name) ≡ false) (artifact_names metadata)

metadata_health_healthy :
    (m : Metadata)
    → metadata_health m ≡ healthy
    → (lacks_field m ≡ false) × (is_backend m.backend ≡ true)
metadata_health_healthy m h = elim (Bool-cases (is_backend m.backend)) [
  | inl known ↦ elim (Bool-cases (lacks_field m)) [
    | inl lacks ↦ cc (rw (known, lacks) at h)
    | inr full ↦ (full, known)
  ]
  | inr unknown ↦ cc (rw unknown at h)
]

healthy-metadata_health :
    (m : Metadata)
    → lacks_field m ≡ false
    → is_backend m.backend ≡ true
    → metadata_health m ≡ healthy
healthy-metadata_health m full known = rw (known, full) refl

worsen_healthy :
    (h : Health) (a : ArtifactInfo) → worsen h a ≡ healthy → (h ≡ healthy) × (a.found ≡ true)
worsen_healthy healthy a e = elim (Bool-cases a.found) [
  | inl there ↦ (refl, there)
  | inr missing ↦ cc (rw missing at e)
]
worsen_healthy invalid_metadata a e = cc e
worsen_healthy (unsupported_backend b) a e = cc e
worsen_healthy (missing_artifact n) a e = cc e

found_not_none : {A : Type 0} (o : Option A) → not (is_none o) ≡ true → is_none o ≡ false
found_not_none none h = cc h
found_not_none (some a) h = refl

artifacts_health_from :
    (dir : SnapshotDir) (h : Health) (names : List Bytes)
    → artifacts_health h (inspect_artifacts dir names) ≡ healthy
    → (h ≡ healthy) × All (λ name. is_none (dir.file_size name) ≡ false) names
unfolding artifacts_health inspect_artifacts
artifacts_health_from dir h [] e = (e, tt)
artifacts_health_from dir h (x ∷ xs) e =
    let (fine, rest) = artifacts_health_from dir _ xs e in
    let (was_healthy, there) = worsen_healthy h _ fine in
    (was_healthy, (found_not_none (dir.file_size x) there, rest))

artifacts_health-All :
    (dir : SnapshotDir) (names : List Bytes)
    → All (λ name. is_none (dir.file_size name) ≡ false) names
    → artifacts_health healthy (inspect_artifacts dir names) ≡ healthy
unfolding artifacts_health inspect_artifacts
artifacts_health-All dir [] all = refl
artifacts_health-All dir (x ∷ xs) (this, rest) = rw this (artifacts_health-All dir xs rest)

pub inspect-Passes :
    (dir : SnapshotDir) (name : Bytes) → (inspect dir name).health ≡ healthy → Passes dir
unfolding inspect
inspect-Passes dir name h = elim (Option-cases dir.metadata) [
  | inl none_there ↦ cc (rw (inspect, none_there) at h)
  | inr (m, there) ↦
      let (fine, all) =
        artifacts_health_from dir (metadata_health m) (artifact_names m)
          (rw (inspect, there) at h) in
      let (full, known) = metadata_health_healthy m fine in
      record {
        metadata = m;
        readable = there;
        fields_set = full;
        known_backend = known;
        all_found = all;
      }
]

pub Passes-inspect :
    (dir : SnapshotDir) (name : Bytes) → Passes dir → (inspect dir name).health ≡ healthy
unfolding inspect
Passes-inspect dir name c =
    let readable = c.readable in
    let start = healthy-metadata_health c.metadata c.fields_set c.known_backend in
    rw (inspect, readable, start) (artifacts_health-All dir (artifact_names c.metadata) c.all_found)
