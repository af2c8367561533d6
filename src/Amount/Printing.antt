-- ===== src/Amount/Printing.antt =====
-- What `get_fiat_printable_amount` shows.
use app_exchange.Common.{take-enough}
use app_exchange.Common.{ltb, c_string-terminated}
use app_exchange.Common.{
  ℕ, zero, suc, ◌+◌, ◌-◌, ◌*◌, ◌%◌, ◌^◌, ◌≤◌, ◌<◌, ◌≡◌, refl, sym, ap, ◌∙◌, true, false, List, [],
  ◌∷◌, ◌++◌, some, length, arith, All, inl, inr, Bool-cases, leb, take, drop, replicate, c_string,
  strncpy, write_at, length-append, length-take, length-drop, length-replicate, append_assoc,
}
use app_exchange.Amount.{
  point_to_str, uint64_from_be_array, signed_text, int64_to_str, fpuint64_to_str,
  get_fiat_printable_amount,
}
use app_exchange.Amount.Text.{
  IsDecimal, signed_text-IsDecimal, IsAmountText, small_text, large_text, small-IsAmountText,
  large-IsAmountText, digits-positive,
}
use app_exchange.Der.Values.{be_value}
use mathlib.Core.Path.{subst}

be_value_le : (bytes : List ℕ) (acc : ℕ) → acc ≤ be_value acc bytes
be_value_le [] acc = omega arith
be_value_le (b ∷ bytes) acc = omega (arith, be_value_le bytes (256 * acc + b))

zero_plus : (k : ℕ) → 0 + k ≡ k
zero_plus k = omega arith

suc_plus : (n k : ℕ) → suc n + k ≡ suc (n + k)
suc_plus n k = omega arith

-- No shift and no sum wraps around while the number fits.
uint64_from_be_array-value :
    (bytes : List ℕ) (acc : ℕ)
    → be_value acc bytes < 2 ^ 64
    → uint64_from_be_array acc bytes ≡ be_value acc bytes
unfolding uint64_from_be_array
uint64_from_be_array-value [] acc h = refl
uint64_from_be_array-value (b ∷ bytes) acc h =
    let le = be_value_le bytes (256 * acc + b) in
    let step : (acc * 256 % 2 ^ 64 + b) % 2 ^ 64 ≡ 256 * acc + b = omega arith in
    rw step (uint64_from_be_array-value bytes (256 * acc + b) h)

drop-zeros : (n k : ℕ) → drop n (replicate {A = ℕ} (n + k) 0) ≡ replicate k 0
drop-zeros zero k = rw (zero_plus k) refl
drop-zeros (suc n) k = rw (suc_plus n k) (drop-zeros n k)

positive-append :
    (a b : List ℕ) → All (λ c. 1 ≤ c) a → All (λ c. 1 ≤ c) b → All (λ c. 1 ≤ c) (a ++ b)
positive-append [] b ha hb = hb
positive-append (c ∷ a) b ha hb = (ha.0, positive-append a b ha.1 hb)

zeros_behind :
    (n k size : ℕ) → size ≡ n + suc k → drop (0 + n) (replicate {A = ℕ} size 0) ≡ 0 ∷ replicate k 0
zeros_behind n k size e = rw (e, zero_plus n) (drop-zeros n (suc k))

-- A text written over zeros, with room for the terminator.
c_string-written :
    (text : List ℕ) (size : ℕ)
    → All (λ c. 1 ≤ c) text
    → length text < size
    → c_string (write_at (replicate size 0) 0 text) ≡ text
c_string-written text size positive fits =
    let k = size - length text - 1 in
    let rest = zeros_behind (length text) k size (omega arith) in
    ap (λ r. c_string (text ++ r)) rest ∙ c_string-terminated text (replicate k 0) positive

IsAmountText-positive :
    (value decimals : ℕ) (text : List ℕ) → IsAmountText value decimals text → All (λ c. 1 ≤ c) text
IsAmountText-positive value decimals text t = subst (All (λ c. 1 ≤ c)) (sym t.pointed) (
    positive-append t.whole (46 ∷ t.fraction) (digits-positive t.whole t.whole_part.1)
      (omega arith, digits-positive t.fraction t.fraction_part.1))

-- A text, zeros up to the end of the array, and nothing behind them.
c_string-filled :
    (text : List ℕ) (j size : ℕ)
    → All (λ c. 1 ≤ c) text
    → length text + suc j ≡ size
    → c_string (write_at (replicate size 0) 0 (text ++ replicate (suc j) 0)) ≡ text
c_string-filled text j size positive full =
    let tail = drop (0 + length (text ++ replicate {A = ℕ} (suc j) 0)) (replicate {A = ℕ} size 0) in
    ap c_string (append_assoc text (replicate (suc j) 0) tail)
    ∙ c_string-terminated text (replicate j 0 ++ tail) positive

strncpy-padded :
    (buffer : List ℕ) (j : ℕ)
    → All (λ c. 1 ≤ c) buffer
    → strncpy (buffer ++ (0 ∷ [])) (length buffer + suc j) ≡ buffer ++ replicate (suc j) 0
unfolding strncpy
strncpy-padded buffer j positive =
    let whole : take (length buffer + suc j) (buffer ++ (0 ∷ [])) ≡ buffer ++ (0 ∷ []) =
      take-enough (buffer ++ (0 ∷ [])) (length buffer + suc j)
        (omega (arith, length-append buffer (0 ∷ []))) in
    let left : length buffer + suc j - length buffer ≡ suc j = omega arith in
    rw (whole, c_string-terminated buffer [] positive, left) refl

int64_to_str-fits :
    (value : ℕ)
    → IsDecimal value (signed_text value)
    → int64_to_str 30 value ≡ some (signed_text value)
unfolding int64_to_str
int64_to_str-fits value d =
    let short = d.short in
    let fits : ltb 30 (length (signed_text value) + 1) ≡ false = ground arith in rw fits refl

-- The branch for an amount below one.
printed_small :
    (size value decimals : ℕ)
    → IsDecimal value (signed_text value)
    → length (signed_text value) ≤ decimals
    → 22 + decimals ≤ size
    → let buffer = signed_text value in
      point_to_str (replicate size 0) size decimals (signed_text value)
      ≡ some (
          write_at
            (replicate size 0)
            0
            (small_text decimals buffer ++ replicate (suc (size - decimals - 3)) 0))
unfolding point_to_str
printed_small size value decimals d le fits =
    let buffer = signed_text value in
    let n = length buffer in
    let zeros : List ℕ = 48 ∷ (46 ∷ replicate (decimals - n) 48) in
    let small : leb n decimals ≡ true = ground arith in
    let room : leb size (2 + decimals - n) ≡ false = ground arith in
    let left : size - (2 + decimals - n) ≡ n + suc (size - decimals - 3) = omega arith in
    let padded =
      strncpy-padded buffer (size - decimals - 3) (digits-positive buffer d.all_digits) in
    let joined : zeros ++ strncpy (buffer ++ (0 ∷ [])) (size - (2 + decimals - n))
        ≡ small_text decimals buffer ++ replicate (suc (size - decimals - 3)) 0 =
      ap (λ m. zeros ++ strncpy (buffer ++ (0 ∷ [])) m) left
      ∙ (ap (λ t. zeros ++ t) padded
          ∙ unfold small_text in
            (sym (append_assoc zeros buffer (replicate (suc (size - decimals - 3)) 0)))) in
    rw (small, room) (ap (λ t. some (write_at (replicate size 0) 0 t)) joined)

printed_large :
    (size value decimals : ℕ)
    → IsDecimal value (signed_text value)
    → decimals < length (signed_text value)
    → 22 + decimals ≤ size
    → point_to_str (replicate size 0) size decimals (signed_text value)
      ≡ some (write_at (replicate size 0) 0 (large_text decimals (signed_text value)))
unfolding point_to_str large_text
printed_large size value decimals d lt fits =
    let n = length (signed_text value) in
    let short = d.short in
    let large : leb n decimals ≡ false = ground arith in
    let room : leb size (n + 1 + decimals) ≡ false = ground arith in rw (large, room) refl

fpuint64_to_str-points :
    (dst : List ℕ) (size value decimals : ℕ)
    → IsDecimal value (signed_text value)
    → fpuint64_to_str dst size value decimals ≡ point_to_str dst size decimals (signed_text value)
unfolding fpuint64_to_str
fpuint64_to_str-points dst size value decimals d =
    rw (int64_to_str-fits value d, fpuint64_to_str) refl

printed :
    (size value decimals : ℕ)
    → IsDecimal value (signed_text value)
    → 22 + decimals ≤ size
    → (out : List ℕ) × (point_to_str (replicate size 0) size decimals (signed_text value)
        ≡ some out)
      × IsAmountText value decimals (c_string out)
printed size value decimals d fits =
    let buffer = signed_text value in
    let short = d.short in
    elim (Bool-cases (leb (length buffer) decimals)) [
      | inl le ↦
          let text = small-IsAmountText value decimals buffer d (ground arith) in
          let positive = IsAmountText-positive value decimals (small_text decimals buffer) text in
          let room : length (small_text decimals buffer) + suc (size - decimals - 3) ≡ size =
            unfold small_text in
            (let small : length buffer ≤ decimals = ground arith in
              omega (
                arith,
                length-append (replicate {A = ℕ} (decimals - length buffer) 48) buffer,
                length-replicate {A = ℕ} (decimals - length buffer) 48,
              )) in
          (
            _,
            printed_small size value decimals d (ground arith) fits,
            subst (IsAmountText value decimals)
                (sym (
                  c_string-filled (small_text decimals buffer) (size - decimals - 3) size positive
                    room))
                text,
          )
      | inr gt ↦
          let text = large-IsAmountText value decimals buffer d (ground arith) in
          let positive = IsAmountText-positive value decimals (large_text decimals buffer) text in
          let room : length (large_text decimals buffer) < size =
            unfold large_text in
            (let shift = length buffer - decimals in
              omega (
                arith,
                length-append (take shift buffer) (46 ∷ drop shift buffer),
                length-take shift buffer,
                length-drop shift buffer,
              )) in
          (
            _,
            printed_large size value decimals d (ground arith) fits,
            subst (IsAmountText value decimals)
                (sym (c_string-written (large_text decimals buffer) size positive room)) text,
          )
    ]

-- A coefficient below 2^63 with an exponent of one byte is printed into a zeroed array, if that has 22
-- bytes more than the exponent: the text has as many digits behind its point as the exponent says, at
-- least one in front of it, and reads the coefficient when the point is left out.
pub get_fiat_printable_amount-IsAmountText :
    (amount_be : List ℕ) (exponent size : ℕ)
    → be_value 0 amount_be < 2 ^ 63
    → exponent < 256
    → 22 + exponent ≤ size
    → (out : List ℕ) × (get_fiat_printable_amount amount_be exponent (replicate size 0) size
        ≡ some out)
      × IsAmountText (be_value 0 amount_be) exponent (c_string out)
unfolding get_fiat_printable_amount
get_fiat_printable_amount-IsAmountText amount_be exponent size small byte fits =
    let value = be_value 0 amount_be in
    let fits64 : value < 2 ^ 64 = omega arith in
    let read = uint64_from_be_array-value amount_be 0 fits64 in
    let cut : exponent % 256 ≡ exponent = omega arith in
    let d = signed_text-IsDecimal value small in
    let (out, result, text) = printed size value exponent d fits in
    (
      out,
      rw (read, cut) (fpuint64_to_str-points (replicate size 0) size value exponent d ∙ result),
      text,
    )
