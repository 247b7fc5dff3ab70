-- ===== src/Tests/Words.antt =====
-- Names, quoting and sizes.
use spind.Prelude.{codes, ok, refl, some, str_eq, true, ◌↔◌, ◌≡◌}
use spind.Name.{
  valid_name, IsFileName, valid_name-IsFileName, all_bytes, is_name_byte, is_alphanumeric,
}
use spind.Shell.Posix.{posix_quote, plain, read_word, read_word-posix_quote}
use spind.Shell.Fish.{fish_quote, read_fish, read_fish-fish_quote}
use spind.Memory.{parse_memory_mib}
use spind.Memory.Accepted.{IsSize, parse_memory_mib_iff}

is_valid : valid_name (codes "vm-1") ≡ true
unfolding valid_name all_bytes is_name_byte is_alphanumeric str_eq
is_valid = refl

name_bytes : all_bytes is_name_byte (codes ".lock") ≡ true
unfolding all_bytes is_name_byte is_alphanumeric
name_bytes = refl

valid_name-IsFileName_example : IsFileName (codes "vm-1")
valid_name-IsFileName_example = valid_name-IsFileName (codes "vm-1") is_valid

read_word-posix_quote_example : read_word plain (posix_quote (codes "it's")) ≡ some (codes "it's")
read_word-posix_quote_example = read_word-posix_quote (codes "it's")

read_fish-fish_quote_example : read_fish plain (fish_quote (codes "a\\'b")) ≡ some (codes "a\\'b")
read_fish-fish_quote_example = read_fish-fish_quote (codes "a\\'b")

parse_memory_mib_iff_example :
    (parse_memory_mib (codes " 4GiB") ≡ ok 4096) ↔ IsSize (codes " 4GiB") 4096
parse_memory_mib_iff_example = parse_memory_mib_iff (codes " 4GiB") 4096
