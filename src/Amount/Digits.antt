-- ===== src/Amount/Digits.antt =====
-- The digits that `int64_to_str` stores.
use app_exchange.Common.{
  ℕ, zero, suc, ◌+◌, ◌-◌, ◌*◌, ◌/◌, ◌%◌, ◌^◌, ◌≤◌, ◌<◌, ◌≡◌, refl, ◌==◌, List, [], ◌∷◌, length,
  arith, All, inl, inr, Bool-cases,
}
use app_exchange.Amount.{digits}

-- A decimal number, read from the accumulator on.
abbrev pub dec_value : ℕ → List ℕ → ℕ
dec_value acc [] = acc
dec_value acc (c ∷ s) = dec_value (10 * acc + (c - 48)) s

abbrev pub IsDigit : ℕ → Type 0
IsDigit c = (48 ≤ c) × (c ≤ 57)

last_digit : (n : ℕ) → 10 * (n / 10) + (48 + n % 10 - 48) ≡ n
last_digit n = omega arith

-- Enough rounds, for a number below ten to their power, store every digit: reading these back in
-- front of what has been stored before is reading on from the number.
pub digits-value :
    (rounds num : ℕ) (text : List ℕ)
    → num < 10 ^ rounds
    → dec_value 0 (digits rounds num text) ≡ dec_value num text
unfolding digits
digits-value zero num text h = let e : num ≡ 0 = omega arith in rw e refl
digits-value (suc rounds) num text h = elim (Bool-cases (num == 0)) [
  | inl e ↦ ground arith
  | inr e ↦
      let ih = digits-value rounds (num / 10) ((48 + num % 10) ∷ text) (omega arith) in
      ground (arith, ih, last_digit num)
]

pub digits-IsDigit :
    (rounds num : ℕ) (text : List ℕ) → All IsDigit text → All IsDigit (digits rounds num text)
unfolding digits
digits-IsDigit zero num text h = h
digits-IsDigit (suc rounds) num text h =
    let ih =
      digits-IsDigit rounds (num / 10) ((48 + num % 10) ∷ text) ((omega arith, omega arith), h) in
    ground arith

pub length-digits :
    (rounds num : ℕ) (text : List ℕ)
    → (length text ≤ length (digits rounds num text))
      × (length (digits rounds num text) ≤ rounds + length text)
unfolding digits
length-digits zero num text = (omega arith, omega arith)
length-digits (suc rounds) num text =
    let ih = length-digits rounds (num / 10) ((48 + num % 10) ∷ text) in ground arith
