-- ===== src/Buf/Splitting.antt =====
-- A one-byte length field cuts the unread bytes in two.
use app_exchange.Common.{
  ℕ, zero, suc, ◌+◌, ◌<◌, ◌≡◌, refl, ap, ◌∙◌, List, [], ◌∷◌, ◌++◌, some, length, drop, get_or,
  arith, take-append-drop, drop-all,
}
use app_exchange.Buf.{parse_to_sized_buffer, read_size}
use app_exchange.Buf.Reading.{parse_to_sized_buffer_bounds}

suc_plus : (n m : ℕ) → suc n + m ≡ suc (n + m)
suc_plus n m = omega arith

plus_one : (n : ℕ) → n + 1 ≡ suc n
plus_one n = omega arith

zero_plus : (n : ℕ) → 0 + n ≡ n
zero_plus n = omega arith

pub drop_next : (xs : List ℕ) (i : ℕ) → i < length xs → drop i xs ≡ get_or xs i 0 ∷ drop (i + 1) xs
drop_next [] i h = absurd (omega arith)
drop_next (x ∷ xs) zero h = refl
drop_next (x ∷ xs) (suc i) h = rw (suc_plus i 1) (drop_next xs i (omega arith))

pub drop-drop : (xs : List ℕ) (i j : ℕ) → drop j (drop i xs) ≡ drop (i + j) xs
drop-drop xs zero j = rw (zero_plus j)
drop-drop [] (suc i) zero = rw (suc_plus i 0)
drop-drop [] (suc i) (suc j) = rw (suc_plus i (suc j))
drop-drop (x ∷ xs) (suc i) j = rw (suc_plus i j) (drop-drop xs i j)

pub parse_to_sized_buffer_split :
    (u2be : ℕ → ℕ → ℕ) (in_buffer : List ℕ) (offset offset' : ℕ) (out : List ℕ)
    → length in_buffer < 65536
    → parse_to_sized_buffer u2be in_buffer 1 offset ≡ some (out, offset')
    → drop offset in_buffer ≡ length out ∷ (out ++ drop offset' in_buffer)
parse_to_sized_buffer_split u2be in_buffer offset offset' out fits h =
    let (e, le, size, slice) =
      parse_to_sized_buffer_bounds u2be in_buffer 1 offset offset' out fits h in
    let head : get_or in_buffer offset 0 ≡ length out = unfold read_size in (ground arith) in
    rw (drop_next in_buffer offset (omega arith), head)
      (ap (λ t. length out ∷ t)
        (cc (
          take-append-drop (length out) (drop (offset + 1) in_buffer),
          drop-drop in_buffer (offset + 1) (length out),
        )))

-- A length field of two bytes.
pub parse_to_sized_buffer_split_wide :
    (u2be : ℕ → ℕ → ℕ) (in_buffer : List ℕ) (offset offset' : ℕ) (out : List ℕ)
    → length in_buffer < 65536
    → parse_to_sized_buffer u2be in_buffer 2 offset ≡ some (out, offset')
    → (hi : ℕ) × (lo : ℕ) × (u2be hi lo ≡ length out)
      × (drop offset in_buffer ≡ hi ∷ (lo ∷ (out ++ drop offset' in_buffer)))
parse_to_sized_buffer_split_wide u2be in_buffer offset offset' out fits h =
    let (e, le, size, slice) =
      parse_to_sized_buffer_bounds u2be in_buffer 2 offset offset' out fits h in
    let hi = get_or in_buffer offset 0 in
    let lo = get_or in_buffer (offset + 1) 0 in
    let told : u2be hi lo ≡ length out = unfold read_size in (ground arith) in
    let second : offset + 1 + 1 ≡ offset + 2 = omega arith in
    let behind : drop (offset + 1 + 1) in_buffer ≡ out ++ drop offset' in_buffer = rw second (
      cc (
        take-append-drop (length out) (drop (offset + 2) in_buffer),
        drop-drop in_buffer (offset + 2) (length out),
      )) in
    (
      hi,
      lo,
      told,
      drop_next in_buffer offset (omega arith)
          ∙ ap (λ t. hi ∷ t)
              (drop_next in_buffer (offset + 1) (omega arith) ∙ ap (λ t. lo ∷ t) behind),
    )

-- All of a buffer has been read when the offset stands at its end.
pub drop_at_end : (xs : List ℕ) (n : ℕ) → length xs ≡ n → drop n xs ≡ []
drop_at_end xs n e = rw (← e) (drop-all xs)
