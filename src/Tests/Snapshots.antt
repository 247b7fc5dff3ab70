-- ===== src/Tests/Snapshots.antt =====
-- A store with one snapshot.
use spind.Prelude.{
  inr, arith, ◌+◌, ◌<◌, ◌≤◌, Bytes, List, [], codes, false, is_empty, none, not, refl, some, str_eq,
  ◌&&◌, ◌↔◌, ◌∷◌, ◌≡◌,
}
use spind.Name.{valid_name, all_bytes, is_name_byte, is_alphanumeric}
use spind.Text.Decimal.{plus}
use spind.Snapshot.{
  Metadata, SnapshotDir, healthy, Info, inspect, inspect_artifacts, artifacts_health, size_of,
  base_from,
}
use spind.Snapshot.Healthy.{IsComplete, inspect_healthy_iff}
use spind.Snapshot.Prune.{
  Disk, has_name, without, delete_with_size, delete_targets, targets_of, cutoff_of, total_of, prune,
}
use spind.Snapshot.Pruning.{is_target, recent, IsSpared, prune_keeps, prune_deletes}

abbrev metadata : Metadata
metadata = record {
  source_vm = codes "vm";
  backend = codes "cloud-hypervisor";
  created_at = some 7;
  cpu_count = 2;
  memory_mib = 1024;
  exec_port = 1;
  kernel_command_line = [];
  kind_ready = false;
  k8s_distribution = [];
  disks = [];
}

abbrev dir : SnapshotDir
dir = record { file_size = λ path. some 4; metadata = some metadata; directory_size = some 32 }

abbrev snapshot : Info
snapshot = record {
  name = codes "a";
  metadata = some metadata;
  disk_size_bytes = 4;
  state_size_bytes = 4;
  total_size_bytes = 32;
  health = healthy;
  kind_template = false;
  artifacts = [];
}

inspect_healthy_iff_example : ((inspect dir (codes "a")).health ≡ healthy) ↔ IsComplete dir
inspect_healthy_iff_example = inspect_healthy_iff dir (codes "a")

inspect-dir : (inspect dir (codes "a")).health ≡ healthy
unfolding inspect inspect_artifacts artifacts_health size_of base_from str_eq is_empty
inspect-dir = refl

abbrev disk : Disk
disk = record { fails = λ call name. false; size = λ name. 32 }

abbrev names : List Bytes
names = codes "a" ∷ codes "b" ∷ []

prune_runs : (prune disk (plus 1) 9 [] false (snapshot ∷ []) names).error ≡ none
unfolding prune targets_of cutoff_of total_of delete_targets delete_with_size valid_name all_bytes
    is_name_byte is_alphanumeric has_name without str_eq is_empty
prune_runs = refl

prune_deletes_example :
    has_name (codes "b") (prune disk (plus 1) 9 [] false (snapshot ∷ []) names).names ≡ (
      not (is_target (codes "b") (prune disk (plus 1) 9 [] false (snapshot ∷ []) names).targets)
      && has_name (codes "b") names)
prune_deletes_example =
    prune_deletes disk (plus 1) 9 [] (snapshot ∷ []) names (codes "b") prune_runs

recent-IsSpared : IsSpared (plus 5) 9 [] (codes "a") (snapshot ∷ [])
recent-IsSpared =
    let long : 0 < 5 = omega arith in
    let late : 9 ≤ 7 + 5 = omega arith in (λ e. recent {age = 5} {time = 7} refl long refl late, tt)

prune_keeps_example :
    has_name (codes "a") (prune disk (plus 5) 9 [] false (snapshot ∷ []) names).names
    ≡ has_name (codes "a") names
prune_keeps_example =
    prune_keeps disk (plus 5) 9 [] (snapshot ∷ []) names false (codes "a") (inr recent-IsSpared)
