-- ===== src/Buf.antt =====
-- src/buf.c: reading sized fields off a command's bytes. A `buf_t` is the list of its bytes; the
-- offset is a uint16_t. `none` is the result `false`.
pub mod Reading
pub mod Splitting
use app_exchange.Common.{
  ℕ, ◌+◌, ◌%◌, List, Option, none, some, ltb, ◌==◌, if◌then◌else◌, length, take, drop, get_or,
}

-- The length in front of a field. `u2be` is the SDK's macro U2BE, on the two bytes that it reads.
unfoldable pub read_size : (ℕ → ℕ → ℕ) → List ℕ → ℕ → ℕ → Option ℕ
read_size u2be in_buffer size_of_length_field offset =
    if size_of_length_field == 1
    then some (get_or in_buffer offset 0)
    else if size_of_length_field == 2
    then some (u2be (get_or in_buffer offset 0) (get_or in_buffer (offset + 1) 0))
    else none

-- The bytes read and the new offset.
unfoldable pub parse_to_sized_buffer : (ℕ → ℕ → ℕ) → List ℕ → ℕ → ℕ → Option (List ℕ × ℕ)
parse_to_sized_buffer u2be in_buffer size_of_length_field offset =
    if ltb (length in_buffer) (offset + size_of_length_field)
    then none
    else elim (read_size u2be in_buffer size_of_length_field offset) [
      | none ↦ none
      | some size ↦
          let start = (offset + size_of_length_field) % 65536 in
          if ltb (length in_buffer) (start + size)
          then none
          else some (take size (drop start in_buffer), (start + size) % 65536)
    ]

unfoldable pub pop_uint8_from_buffer : List ℕ → ℕ → Option (ℕ × ℕ)
pop_uint8_from_buffer in_buffer offset =
    if ltb (length in_buffer) (offset + 1)
    then none
    else some (get_or in_buffer offset 0, (offset + 1) % 65536)
