-- ===== src/Amount/Text.antt =====
-- The text of a fiat amount.
use app_exchange.Amount.{is_negative}
use app_exchange.Common.{
  ℕ, zero, suc, ◌+◌, ◌-◌, ◌*◌, ◌/◌, ◌%◌, ◌^◌, ◌≤◌, ◌<◌, ◌≡◌, refl, ap, ◌∙◌, ◌==◌, true, false, List,
  [], ◌∷◌, ◌++◌, length, arith, All, inl, inr, Bool-cases, take, drop, replicate, c_string,
  length-append, length-take, length-drop, length-replicate, take-append-drop,
}
use app_exchange.Amount.{digits, signed_text}
use app_exchange.Amount.Digits.{dec_value, IsDigit, digits-value, digits-IsDigit, length-digits}

dec_value-append : (acc : ℕ) (a b : List ℕ) → dec_value acc (a ++ b) ≡ dec_value (dec_value acc a) b
dec_value-append acc [] b = refl
dec_value-append acc (c ∷ a) b = dec_value-append (10 * acc + (c - 48)) a b

dec_value-zeros : (k : ℕ) → dec_value 0 (replicate k 48) ≡ 0
dec_value-zeros zero = refl
dec_value-zeros (suc k) = dec_value-zeros k

pub All-append : (a b : List ℕ) → All IsDigit a → All IsDigit b → All IsDigit (a ++ b)
All-append [] b ha hb = hb
All-append (c ∷ a) b ha hb = (ha.0, All-append a b ha.1 hb)

All-zeros : (k : ℕ) → All IsDigit (replicate k 48)
All-zeros zero = tt
All-zeros (suc k) = ((omega arith, omega arith), All-zeros k)

All-split : (n : ℕ) (s : List ℕ) → All IsDigit s → All IsDigit (take n s) × All IsDigit (drop n s)
All-split zero s h = (tt, h)
All-split (suc n) [] h = (tt, tt)
All-split (suc n) (c ∷ s) h = let (front, back) = All-split n s h.1 in ((h.0, front), back)

pub digits-positive : (s : List ℕ) → All IsDigit s → All (λ c. 1 ≤ c) s
digits-positive [] h = tt
digits-positive (c ∷ s) h = (omega arith, digits-positive s h.1)

pub c_string-whole : (s : List ℕ) → All (λ c. 1 ≤ c) s → c_string s ≡ s
unfolding c_string
c_string-whole [] h = refl
c_string-whole (c ∷ s) h = ground (arith, c_string-whole s h.1)

-- The digits of a coefficient of less than 63 bits.
pub record IsDecimal (value : ℕ) (text : List ℕ) : Type 0 where
  pub reads : dec_value 0 text ≡ value
  pub all_digits : All IsDigit text
  pub some_digit : 1 ≤ length text
  pub short : length text ≤ 20

pub not_negative : (value : ℕ) → value < 2 ^ 63 → is_negative value ≡ false
not_negative value h = ground arith

digits_some : (value : ℕ) → (value == 0) ≡ false → 1 ≤ length (digits 20 value [])
unfolding digits
digits_some value e =
    let (more, _) = length-digits 19 (value / 10) ((48 + value % 10) ∷ []) in rw e more

digits-IsDecimal :
    (value : ℕ) → value < 10 ^ 20 → (value == 0) ≡ false → IsDecimal value (digits 20 value [])
digits-IsDecimal value h e = record {
  reads = digits-value 20 value [] h;
  all_digits = digits-IsDigit 20 value [] tt;
  some_digit = digits_some value e;
  short = (length-digits 20 value []).1;
}

zero-IsDecimal : (value : ℕ) → (value == 0) ≡ true → IsDecimal value (48 ∷ [])
zero-IsDecimal value e = record {
  reads = ground arith;
  all_digits = ((omega arith, omega arith), tt);
  some_digit = omega arith;
  short = omega arith;
}

pub signed_text-IsDecimal : (value : ℕ) → value < 2 ^ 63 → IsDecimal value (signed_text value)
unfolding signed_text
signed_text-IsDecimal value h =
    let positive = not_negative value h in
    let fits : value < 10 ^ 20 = omega arith in
    elim (Bool-cases (value == 0)) [
      | inl e ↦ rw (positive, e) (zero-IsDecimal value e)
      | inr e ↦ rw (positive, e) (digits-IsDecimal value fits e)
    ]

-- A decimal text with `decimals` digits behind the point, which reads `value` without the point.
pub record IsAmountText (value decimals : ℕ) (text : List ℕ) : Type 0 where
  pub whole : List ℕ
  pub fraction : List ℕ
  pub pointed : text ≡ whole ++ (46 ∷ fraction)
  pub whole_part : (1 ≤ length whole) × All IsDigit whole
  pub fraction_part : (length fraction ≡ decimals) × All IsDigit fraction
  pub reads : dec_value 0 (whole ++ fraction) ≡ value

-- The two texts that `fpuint64_to_str` composes.
unfoldable pub small_text : ℕ → List ℕ → List ℕ
small_text decimals buffer = (48 ∷ (46 ∷ replicate (decimals - length buffer) 48)) ++ buffer

unfoldable pub large_text : ℕ → List ℕ → List ℕ
large_text decimals buffer =
    take (length buffer - decimals) buffer ++ (46 ∷ drop (length buffer - decimals) buffer)

pub small-IsAmountText :
    (value decimals : ℕ) (buffer : List ℕ)
    → IsDecimal value buffer
    → length buffer ≤ decimals
    → IsAmountText value decimals (small_text decimals buffer)
unfolding small_text
small-IsAmountText value decimals buffer d le =
    let zeros = decimals - length buffer in
    record {
      whole = 48 ∷ [];
      fraction = replicate zeros 48 ++ buffer;
      pointed = refl;
      whole_part = (omega arith, ((omega arith, omega arith), tt));
      fraction_part = (
        omega (arith, length-append (replicate zeros 48) buffer, length-replicate {A = ℕ} zeros 48),
        All-append (replicate zeros 48) buffer (All-zeros zeros) d.all_digits,
      );
      reads =
          dec_value-append 0 (replicate zeros 48) buffer
          ∙ (ap (λ acc. dec_value acc buffer) (dec_value-zeros zeros) ∙ d.reads);
    }

pub large-IsAmountText :
    (value decimals : ℕ) (buffer : List ℕ)
    → IsDecimal value buffer
    → decimals < length buffer
    → IsAmountText value decimals (large_text decimals buffer)
unfolding large_text
large-IsAmountText value decimals buffer d lt =
    let shift = length buffer - decimals in
    let (front, back) = All-split shift buffer d.all_digits in
    record {
      whole = take shift buffer;
      fraction = drop shift buffer;
      pointed = refl;
      whole_part = (omega (arith, length-take shift buffer), front);
      fraction_part = (omega (arith, length-drop shift buffer), back);
      reads = ap (dec_value 0) (take-append-drop shift buffer) ∙ d.reads;
    }
