-- ===== src/Der.antt =====
-- src/der.c: the DER encoding of a signature (r, s). The pointer into the output and the end of the
-- buffer are the bytes written so far and the room that is left; `none` is the result 0.
pub mod Encoding
pub mod Values
use app_exchange.Common.{
  ℕ, suc, ◌+◌, ◌-◌, ◌/◌, ◌%◌, Bool, true, false, ltb, ◌==◌, if◌then◌else◌, List, [], ◌∷◌, ◌++◌,
  Option, none, some, length,
}
use app_exchange.Common.Maybe.{◌>>=◌}

-- `*val & 0x80` on a byte.
abbrev pub has_top_bit : ℕ → Bool
has_top_bit v = v / 128 % 2 == 1

abbrev pub first_has_top_bit : List ℕ → Bool
first_has_top_bit [] = false
first_has_top_bit (v ∷ vs) = has_top_bit v

abbrev pub is_empty : List ℕ → Bool
is_empty [] = true
is_empty (v ∷ vs) = false

-- `while (len && (*val == 0)) { val++; len--; }`
unfoldable pub strip_zeros : List ℕ → List ℕ
strip_zeros [] = []
strip_zeros (v ∷ vs) = if v == 0 then strip_zeros vs else v ∷ vs

unfoldable pub asn1_get_encoded_length_size : ℕ → ℕ
asn1_get_encoded_length_size len =
    if ltb len 0x80 then 1 else if ltb len 0x100 then 2 else if ltb len 0x10000 then 3 else 0

-- The size of the content of an integer, once its leading zeros are gone.
abbrev pub content_size : List ℕ → ℕ
content_size val =
    if is_empty val then 1 else if first_has_top_bit val then length val + 1 else length val

unfoldable pub asn1_get_encoded_integer_size : List ℕ → ℕ
asn1_get_encoded_integer_size val =
    let len = content_size (strip_zeros val) in
    let l0 = asn1_get_encoded_length_size len in if l0 == 0 then 0 else 1 + l0 + len

pub record Output : Type 0 where
  pub written : List ℕ
  pub room : ℕ

-- `if ((end - *p) < n) return 0;` and the writing of `n` bytes.
unfoldable pub put : Output → List ℕ → Option Output
put out bytes =
    if ltb out.room (length bytes)
    then none
    else some (record { written = out.written ++ bytes; room = out.room - length bytes })

unfoldable pub asn1_insert_tag : Output → ℕ → Option Output
asn1_insert_tag out tag = put out (tag ∷ [])

unfoldable pub asn1_insert_len : Output → ℕ → Option Output
asn1_insert_len out len =
    if ltb len 0x80
    then put out (len ∷ [])
    else if ltb len 0x100
    then put out (0x81 ∷ (len ∷ []))
    else if ltb len 0x10000
    then put out (0x82 ∷ (len / 256 % 256 ∷ (len % 256 ∷ [])))
    else none

-- The rest of `asn1_insert_integer`, on the integer without leading zeros.
unfoldable pub insert_value : Output → List ℕ → Option Output
insert_value out val = if is_empty val then put out (0x01 ∷ (0x00 ∷ [])) else do
  sized ← asn1_insert_len out (if first_has_top_bit val then length val + 1 else length val)
  padded ← if first_has_top_bit val then put sized (0 ∷ []) else some sized
  put padded val

unfoldable pub asn1_insert_integer : Output → List ℕ → Option Output
asn1_insert_integer out val = do
  tagged ← asn1_insert_tag out 0x02
  insert_value tagged (strip_zeros val)

unfoldable pub write_signature : Output → ℕ → List ℕ → List ℕ → Option (List ℕ)
write_signature out len r s = do
  tagged ← asn1_insert_tag out 0x30
  sized ← asn1_insert_len tagged len
  with_r ← asn1_insert_integer sized r
  with_s ← asn1_insert_integer with_r s
  some with_s.written

-- The bytes of the signature; the C result is their number.
unfoldable pub encode_sig_der : ℕ → List ℕ → List ℕ → Option (List ℕ)
encode_sig_der sig_len r s =
    let r_size = asn1_get_encoded_integer_size r in
    let s_size = asn1_get_encoded_integer_size s in
    if r_size == 0
    then none
    else if s_size == 0
    then none
    else write_signature (record { written = []; room = sig_len }) (r_size + s_size) r s
