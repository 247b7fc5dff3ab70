-- ===== src/Vm/Config/CommandLine.antt =====
-- The kernel command lines of internal/spind/vm/start/manager.go.
use spind.Prelude.{
  Bool, Bytes, List, Option, [], codes, false, if◌then◌else◌, is_empty, is_nil, none, some, str_eq,
  true, ◌++◌, ◌==◌, ◌||◌, ◌∷◌,
}
use spind.Text.Words.{trim_space, fields, has_prefix, grow_word}
use spind.Snapshot.Prune.{has_name}
use spind.Vm.Config.{ImageMetadata}

-- `strings.Split(s, ",")`
unfoldable pub split_commas : Bytes → List Bytes
split_commas [] = [] ∷ []
split_commas (c ∷ cs) =
    let rest = split_commas cs in if c == b',' then [] ∷ rest else grow_word c rest

-- `strings.Cut(s, "=")`
unfoldable pub cut_equals : Bytes → Option (Bytes × Bytes)
cut_equals [] = none
cut_equals (c ∷ cs) =
    let rest = cut_equals cs in
    if c == b'='
    then some ([], cs)
    else elim rest [ none ↦ none | some cut ↦ some (c ∷ cut.0, cut.1) ]

-- `strings.Join(words, " ")`
unfoldable pub join_words : List Bytes → Bytes
join_words [] = []
join_words (w ∷ []) = w
join_words (w ∷ v ∷ ws) = w ++ (b' ' ∷ join_words (v ∷ ws))

unfoldable pub ensure_comma_list_value : Bytes → Bytes → Bytes
ensure_comma_list_value field value = elim (cut_equals field) [
  | none ↦ field
  | some cut ↦
      if has_name value (split_commas cut.1)
      then field
      else if is_empty cut.1
      then cut.0 ++ (b'=' ∷ value)
      else cut.0 ++ (b'=' ∷ (cut.1 ++ (b',' ∷ value)))
]

-- the fields that the code drops
unfoldable pub is_dropped : Bytes → Bool
is_dropped field =
    has_prefix (codes "console=") field
    || has_prefix (codes "root=") field
    || str_eq field (codes "rw")
    || str_eq field (codes "ro")
    || has_prefix (codes "spind.ch_net=") field
    || has_prefix (codes "kido.ch_net=") field

unfoldable pub is_modules : Bytes → Bool
is_modules field = has_prefix (codes "modules=") field

-- the loop: the fields that are kept, and whether there are modules among them
unfoldable pub kept_fields : List Bytes → List Bytes × Bool
kept_fields [] = ([], false)
kept_fields (field ∷ fields) =
    let (kept, has_modules) = kept_fields fields in
    if is_dropped field
    then (kept, has_modules)
    else if is_modules field
    then (ensure_comma_list_value field (codes "virtio_net") ∷ kept, true)
    else (field ∷ kept, has_modules)

abbrev pub own_fields : List Bytes
own_fields =
    codes "console=ttyS0"
    ∷ codes "root=/dev/vda1"
    ∷ codes "rw"
    ∷ codes "spind.ch_net=1"
    ∷ codes "kido.ch_net=1"
    ∷ []

unfoldable pub filtered_fields : List Bytes → List Bytes
filtered_fields words =
    let (kept, has_modules) = kept_fields words in
    if has_modules
    then own_fields ++ kept
    else own_fields ++ (kept ++ (codes "modules=virtio_net" ∷ []))

unfoldable pub cloud_hypervisor_kernel_command_line : ImageMetadata → Bytes
cloud_hypervisor_kernel_command_line image =
    let words = fields image.kernel_command_line in
    if str_eq image.image_type (codes "microvm-nix")
    then trim_space image.kernel_command_line
    else if is_nil words
    then codes "console=ttyS0 root=/dev/vda1 rw"
    else join_words (filtered_fields words)

-- `base64.StdEncoding.EncodeToString` is an argument.
unfoldable pub apply_image_authorized_key_command_line :
    (Bytes → Bytes) → ImageMetadata → Bytes → Bytes → Bytes
apply_image_authorized_key_command_line base64 image public_key command_line =
    if is_empty image.ssh_authorized_key_command_line_param
    then command_line
    else trim_space (
        command_line
        ++ (b' ' ∷ (image.ssh_authorized_key_command_line_param ++ (b'=' ∷ base64 public_key))))
