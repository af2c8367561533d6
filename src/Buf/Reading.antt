-- ===== src/Buf/Reading.antt =====
-- What the two readers of src/buf.c accept, and where they stop.
use app_exchange.Common.{
  ℕ, suc, ◌+◌, ◌%◌, ◌≤◌, ◌<◌, ◌≡◌, refl, List, [], ◌∷◌, ◌++◌, none, some, length, take, drop,
  get_or, arith, Option-cases, inl, inr, length-append, length-take, length-drop, take-append_left,
  get_or-append_left,
}
use app_exchange.Buf.{parse_to_sized_buffer, read_size}

suc_plus : (n : ℕ) → suc n + 1 ≡ suc (n + 1)
suc_plus n = omega arith

modulo : (n : ℕ) → n < 65536 → n % 65536 ≡ n
modulo n h = omega arith

-- A field that is read lies inside the buffer, in front of the new offset, and has the length that
-- its header announces; the offset does not wrap on a buffer of at most 65535 bytes.
pub parse_to_sized_buffer_bounds :
    (u2be : ℕ → ℕ → ℕ) (in_buffer : List ℕ) (field offset offset' : ℕ) (out : List ℕ)
    → length in_buffer < 65536
    → parse_to_sized_buffer u2be in_buffer field offset ≡ some (out, offset')
    → (offset' ≡ offset + field + length out)
      × (offset' ≤ length in_buffer)
      × (read_size u2be in_buffer field offset ≡ some (length out))
      × (out ≡ take (length out) (drop (offset + field) in_buffer))
unfolding parse_to_sized_buffer
parse_to_sized_buffer_bounds u2be in_buffer field offset offset' out fits h =
    elim (Option-cases (read_size u2be in_buffer field offset)) [
      | inl e ↦ absurd (ground arith)
      | inr (size, e) ↦ ground (
        arith,
        length-take size (drop (offset + field) in_buffer),
        length-drop (offset + field) in_buffer,
        modulo (offset + field),
      )
    ]

header_dropped :
    (before : List ℕ) (x : ℕ) (rest : List ℕ)
    → drop (length before + 1) (before ++ (x ∷ rest)) ≡ rest
header_dropped [] x rest = refl
header_dropped (b ∷ before) x rest = rw (suc_plus (length before)) (header_dropped before x rest)

-- The parser reads back a field behind its length and behind any prefix, whatever follows it, if
-- prefix, length and field have less than 65536 bytes.
pub parse_to_sized_buffer_field :
    (u2be : ℕ → ℕ → ℕ) (before out rest : List ℕ)
    → length before + length out + 1 < 65536
    → parse_to_sized_buffer u2be (before ++ (length out ∷ (out ++ rest))) 1 (length before)
      ≡ some (out, length before + 1 + length out)
unfolding parse_to_sized_buffer read_size
parse_to_sized_buffer_field u2be before out rest fits = ground (
  arith,
  length-append before (length out ∷ (out ++ rest)),
  length-append out rest,
  get_or-append_left before (length out ∷ (out ++ rest)) 0,
  modulo (length before + 1),
  header_dropped before (length out) (out ++ rest),
  take-append_left out rest,
)

pub parse_to_sized_buffer_short :
    (u2be : ℕ → ℕ → ℕ) (in_buffer : List ℕ) (offset : ℕ)
    → length in_buffer < 65536
    → offset ≤ length in_buffer
    → length in_buffer < offset + 1 + get_or in_buffer offset 0
    → parse_to_sized_buffer u2be in_buffer 1 offset ≡ none
unfolding parse_to_sized_buffer read_size
parse_to_sized_buffer_short u2be in_buffer offset fits le h = ground arith

two_dropped :
    (before : List ℕ) (x y : ℕ) (rest : List ℕ)
    → drop (length before + 2) (before ++ (x ∷ (y ∷ rest))) ≡ rest
two_dropped [] x y rest = refl
two_dropped (b ∷ before) x y rest =
    let next : suc (length before) + 2 ≡ suc (length before + 2) = omega arith in
    rw next (two_dropped before x y rest)

second_byte :
    (before : List ℕ) (x y : ℕ) (rest : List ℕ)
    → get_or (before ++ (x ∷ (y ∷ rest))) (length before + 1) 0 ≡ y
second_byte [] x y rest = refl
second_byte (b ∷ before) x y rest = rw (suc_plus (length before)) (second_byte before x y rest)

-- The same for a length of two bytes.
pub parse_to_sized_buffer_wide :
    (u2be : ℕ → ℕ → ℕ) (before out rest : List ℕ) (hi lo : ℕ)
    → length before + length out + 2 < 65536
    → u2be hi lo ≡ length out
    → parse_to_sized_buffer u2be (before ++ (hi ∷ (lo ∷ (out ++ rest)))) 2 (length before)
      ≡ some (out, length before + 2 + length out)
unfolding parse_to_sized_buffer read_size
parse_to_sized_buffer_wide u2be before out rest hi lo fits size =
    let first = get_or-append_left before (hi ∷ (lo ∷ (out ++ rest))) 0 in
    let second = second_byte before hi lo (out ++ rest) in
    rw (first, second, size)
      (ground (
        arith,
        length-append before (hi ∷ (lo ∷ (out ++ rest))),
        length-append out rest,
        modulo (length before + 2),
        two_dropped before hi lo (out ++ rest),
        take-append_left out rest,
      ))
