-- ===== src/Der/Values.antt =====
-- The content of a DER integer: its value and its sign.
use app_exchange.Common.{
  length, some, ◌≤◌, ◌++◌, ℕ, ◌+◌, ◌*◌, ◌<◌, ◌≡◌, refl, List, [], ◌∷◌, arith, All, get_or,
}
use app_exchange.Der.{strip_zeros, Output, asn1_insert_integer}
use app_exchange.Der.Encoding.{
  der_content, der_integer, asn1_insert_integer-der_integer, integer_size_bounds,
  length-strip_zeros,
}

-- A big-endian number, read from the accumulator on.
abbrev pub be_value : ℕ → List ℕ → ℕ
be_value acc [] = acc
be_value acc (v ∷ vs) = be_value (256 * acc + v) vs

strip_zeros-value : (val : List ℕ) → be_value 0 (strip_zeros val) ≡ be_value 0 val
unfolding strip_zeros
strip_zeros-value [] = refl
strip_zeros-value (v ∷ vs) = ground (arith, strip_zeros-value vs)

strip_zeros-bytes : (val : List ℕ) → All (λ v. v < 256) val → All (λ v. v < 256) (strip_zeros val)
unfolding strip_zeros
strip_zeros-bytes [] h = tt
strip_zeros-bytes (v ∷ vs) h = ground (arith, strip_zeros-bytes vs)

content_value : (val : List ℕ) → be_value 0 (der_content val) ≡ be_value 0 val
content_value [] = refl
content_value (v ∷ vs) = ground arith

content_sign : (val : List ℕ) → All (λ v. v < 256) val → get_or (der_content val) 0 0 < 128
content_sign [] h = omega arith
content_sign (v ∷ vs) h = ground arith

-- One zero at most is written in front.
content_bound : (val : List ℕ) → length (der_content val) ≤ length val + 1
content_bound [] = omega arith
content_bound (v ∷ vs) = ground arith

length-der_integer : (val : List ℕ) → length (der_integer val) ≤ length val + 3
length-der_integer val = omega (arith, length-strip_zeros val, content_bound (strip_zeros val))

-- `asn1_insert_integer` writes an integer of at most 32 bytes, in a room of three bytes
-- more: behind the tag of an integer stands a content, its length in front of it, that is not
-- empty, has the integer's value and, read as a two's complement, is not negative; and this is all that
-- is written.
pub asn1_insert_integer-value :
    (out : Output) (val : List ℕ)
    → All (λ v. v < 256) val
    → length val ≤ 32
    → length val + 3 ≤ out.room
    → (content : List ℕ) × (next : Output) × (asn1_insert_integer out val ≡ some next)
      × (next.written ≡ out.written ++ (0x02 ∷ (length content ∷ content)))
      × (next.room + 2 + length content ≡ out.room)
      × (1 ≤ length content)
      × (be_value 0 content ≡ be_value 0 val)
      × (get_or content 0 0 < 128)
asn1_insert_integer-value out val bytes small fits =
    let content = der_content (strip_zeros val) in
    let (long, short) = integer_size_bounds val small in
    let size = length-der_integer val in
    (
      content,
      _,
      asn1_insert_integer-der_integer out val small (omega arith),
      refl,
      omega arith,
      omega arith,
      rw (content_value (strip_zeros val)) (strip_zeros-value val),
      content_sign (strip_zeros val) (strip_zeros-bytes val bytes),
    )
