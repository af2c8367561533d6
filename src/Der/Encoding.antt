-- ===== src/Der/Encoding.antt =====
-- The encoding of two 32-byte integers always succeeds, fits, and is the DER form.
use app_exchange.Common.{append-nil}
use mathlib.Core.Path.{subst}
use app_exchange.Common.{
  ℕ, suc, ◌+◌, ◌-◌, ◌≤◌, ◌<◌, ◌≡◌, refl, ap, ◌∙◌, false, ◌==◌, if◌then◌else◌, List, [], ◌∷◌, ◌++◌,
  some, length, arith, length-append, append_assoc,
}
use app_exchange.Der.{
  first_has_top_bit, is_empty, strip_zeros, asn1_get_encoded_length_size, content_size,
  asn1_get_encoded_integer_size, Output, put, asn1_insert_tag, asn1_insert_len, insert_value,
  asn1_insert_integer, write_signature, encode_sig_der,
}

-- The content of an INTEGER: no superfluous zero in front, one zero if the top bit is set.
abbrev pub der_content : List ℕ → List ℕ
der_content val = if is_empty val then 0 ∷ [] else if first_has_top_bit val then 0 ∷ val else val

abbrev pub der_integer : List ℕ → List ℕ
der_integer val = 0x02 ∷ (length (der_content (strip_zeros val)) ∷ der_content (strip_zeros val))

-- SEQUENCE { r INTEGER, s INTEGER }, in the short form of lengths.
abbrev pub der_signature : List ℕ → List ℕ → List ℕ
der_signature r s =
    0x30 ∷ ((length (der_integer r) + length (der_integer s)) ∷ (der_integer r ++ der_integer s))

pub length-strip_zeros : (val : List ℕ) → length (strip_zeros val) ≤ length val
unfolding strip_zeros
length-strip_zeros [] = omega arith
length-strip_zeros (v ∷ vs) = ground (arith, length-strip_zeros vs)

length-der_content : (val : List ℕ) → length (der_content val) ≡ content_size val
length-der_content [] = refl
length-der_content (v ∷ vs) = ground arith

content_size_bounds : (val : List ℕ) → (1 ≤ content_size val) × (content_size val ≤ length val + 1)
content_size_bounds [] = omega arith
content_size_bounds (v ∷ vs) = ground arith

pub integer_size :
    (val : List ℕ) → length val ≤ 32 → asn1_get_encoded_integer_size val ≡ length (der_integer val)
unfolding asn1_get_encoded_integer_size asn1_get_encoded_length_size
integer_size val small = ground (
  arith,
  content_size_bounds (strip_zeros val),
  length-strip_zeros val,
  length-der_content (strip_zeros val),
)

pub integer_size_bounds :
    (val : List ℕ)
    → length val ≤ 32
    → (3 ≤ length (der_integer val)) × (length (der_integer val) ≤ 35)
integer_size_bounds val small = omega (
  arith,
  content_size_bounds (strip_zeros val),
  length-strip_zeros val,
  length-der_content (strip_zeros val),
)

appended : Output → List ℕ → Output
appended out bytes = record { written = out.written ++ bytes; room = out.room - length bytes }

put_ok :
    (out : Output) (bytes : List ℕ)
    → length bytes ≤ out.room
    → put out bytes ≡ some (appended out bytes)
unfolding put appended
put_ok out bytes fits = ground arith

appended-appended :
    (out : Output) (a b : List ℕ) → appended (appended out a) b ≡ appended out (a ++ b)
unfolding appended
appended-appended out a b = ground (arith, append_assoc out.written a b, length-append a b)

put_after :
    (out : Output) (a b : List ℕ)
    → length a + length b ≤ out.room
    → put (appended out a) b ≡ some (appended out (a ++ b))
put_after out a b fits =
    put_ok (appended out a) b (unfold appended in (omega arith))
    ∙ ap some (appended-appended out a b)

insert_len_short :
    (out : Output) (n : ℕ)
    → n < 128
    → 1 ≤ out.room
    → asn1_insert_len out n ≡ some (appended out (n ∷ []))
unfolding asn1_insert_len
insert_len_short out n small fits = ground (arith, put_ok out (n ∷ []))

not_zero : (n : ℕ) → 3 ≤ n → (n == 0) ≡ false
not_zero n h = ground arith

plus_one : (n : ℕ) → n + 1 ≡ suc n
plus_one n = omega arith

insert_value_ok :
    (out : Output) (val : List ℕ)
    → length val ≤ 32
    → length (der_content val) + 1 ≤ out.room
    → insert_value out val ≡ some (appended out (length (der_content val) ∷ der_content val))
unfolding insert_value
insert_value_ok out [] small fits = put_ok out _ (omega arith)
insert_value_ok out (v ∷ vs) small fits = ground (
  arith,
  plus_one (suc (length vs)),
  insert_len_short out (suc (length vs)),
  insert_len_short out (suc (suc (length vs))),
  put_after out (suc (suc (length vs)) ∷ []) (0 ∷ []),
  put_after out (suc (suc (length vs)) ∷ (0 ∷ [])) (v ∷ vs),
  put_after out (suc (length vs) ∷ []) (v ∷ vs),
)

insert_integer_ok :
    (out : Output) (a val : List ℕ)
    → length val ≤ 32
    → length a + length (der_integer val) ≤ out.room
    → asn1_insert_integer (appended out a) val ≡ some (appended out (a ++ der_integer val))
unfolding asn1_insert_integer asn1_insert_tag
insert_integer_ok out a val small fits =
    let content = length (der_content (strip_zeros val)) ∷ der_content (strip_zeros val) in
    rw (put_after out a (0x02 ∷ []) (omega arith)) (
      insert_value_ok (appended out (a ++ (0x02 ∷ []))) (strip_zeros val)
        (omega (arith, length-strip_zeros val))
        (unfold appended in (omega (arith, length-append a (0x02 ∷ []))))
      ∙ ap some (
          appended-appended out (a ++ (0x02 ∷ [])) content
          ∙ ap (appended out) (append_assoc a (0x02 ∷ []) content)))

appended_nothing : (out : Output) → appended out [] ≡ out
unfolding appended
appended_nothing out =
    let kept : out.room - 0 ≡ out.room = omega arith in rw (append-nil out.written, kept) refl

pub asn1_insert_integer-der_integer :
    (out : Output) (val : List ℕ)
    → length val ≤ 32
    → length (der_integer val) ≤ out.room
    → asn1_insert_integer out val
      ≡ some (record {
        written = out.written ++ der_integer val;
        room = out.room - length (der_integer val);
      })
unfolding appended
asn1_insert_integer-der_integer out val small fits =
    subst (λ o. asn1_insert_integer o val ≡ some (appended out (der_integer val)))
      (appended_nothing out) (insert_integer_ok out [] val small (omega arith))

write_signature_ok :
    (out : Output) (r s : List ℕ)
    → length r ≤ 32
    → length s ≤ 32
    → length (der_integer r) + length (der_integer s) + 2 ≤ out.room
    → write_signature out (length (der_integer r) + length (der_integer s)) r s
      ≡ some (out.written ++ der_signature r s)
unfolding write_signature asn1_insert_tag
write_signature_ok out r s hr hs fits =
    let len = length (der_integer r) + length (der_integer s) in
    let bounds_r = integer_size_bounds r hr in
    let bounds_s = integer_size_bounds s hs in
    rw
      (
        put_ok out (0x30 ∷ []) (omega arith),
        insert_len_short (appended out (0x30 ∷ [])) len (omega arith)
            (unfold appended in (omega arith)),
        appended-appended out (0x30 ∷ []) (len ∷ []),
        insert_integer_ok out (0x30 ∷ (len ∷ [])) r hr (omega arith),
        insert_integer_ok out (0x30 ∷ (len ∷ der_integer r)) s hs (omega arith),
      )
      (unfold appended in refl)

-- With the room of `sig_len` bytes that `check_tx_signature` computes, the encoding of two integers
-- of at most 32 bytes succeeds and is the DER form of the signature; that has `sig_len` bytes, which
-- are at most the 76 of the caller's buffer.
pub encode_sig_der-der_signature :
    (r s : List ℕ)
    → length r ≤ 32
    → length s ≤ 32
    → (encode_sig_der (asn1_get_encoded_integer_size r + asn1_get_encoded_integer_size s + 2) r s
        ≡ some (der_signature r s))
      × (length (der_signature r s)
          ≡ asn1_get_encoded_integer_size r + asn1_get_encoded_integer_size s + 2)
      × (length (der_signature r s) ≤ 76)
unfolding encode_sig_der
encode_sig_der-der_signature r s hr hs =
    let room = length (der_integer r) + length (der_integer s) + 2 in
    let both = length-append (der_integer r) (der_integer s) in
    let bounds_r = integer_size_bounds r hr in
    let bounds_s = integer_size_bounds s hs in
    rw (integer_size r hr, integer_size s hs, not_zero _ bounds_r.0, not_zero _ bounds_s.0)
      (
        write_signature_ok (record { written = []; room = room }) r s hr hs (omega arith),
        omega arith,
        omega arith,
      )
