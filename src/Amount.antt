-- ===== src/Amount.antt =====
-- src/printable_amount.c: printing a fiat amount, a big-endian coefficient with a decimal exponent.
-- Characters are bytes; `none` is the result -1.
pub mod Digits
pub mod Printing
pub mod Text
use app_exchange.Common.{
  ℕ, zero, suc, ◌+◌, ◌-◌, ◌*◌, ◌/◌, ◌%◌, ◌^◌, Bool, ltb, leb, ◌==◌, if◌then◌else◌, List, [], ◌∷◌,
  ◌++◌, Option, none, some, length, take, drop, replicate, write_at, strncpy,
}

-- `result <<= 8; result += data[i];` on uint64_t.
unfoldable pub uint64_from_be_array : ℕ → List ℕ → ℕ
uint64_from_be_array result [] = result
uint64_from_be_array result (b ∷ bytes) =
    uint64_from_be_array ((result * 256 % 2 ^ 64 + b) % 2 ^ 64) bytes

-- A uint64_t that is passed as an int64_t.
abbrev pub is_negative : ℕ → Bool
is_negative value = leb (2 ^ 63) value

abbrev pub magnitude : ℕ → ℕ
magnitude value = if is_negative value then 2 ^ 64 - value else value

-- The loop over the digits, which are stored last digit first and then reversed; `text` is what has
-- been stored, reversed. Twenty rounds are enough for 64 bits.
unfoldable pub digits : ℕ → ℕ → List ℕ → List ℕ
digits zero num text = text
digits (suc rounds) num text =
    let rest = digits rounds (num / 10) ((48 + num % 10) ∷ text) in if num == 0 then text else rest

unfoldable pub signed_text : ℕ → List ℕ
signed_text number =
    if is_negative number
    then 45 ∷ digits 20 (magnitude number) []
    else if number == 0
    then 48 ∷ []
    else digits 20 number []

unfoldable pub int64_to_str : ℕ → ℕ → Option (List ℕ)
int64_to_str size number =
    if ltb size (length (signed_text number) + 1) then none else some (signed_text number)

-- The point among the digits of `buffer`. `dst` is the memory of `size` bytes that is written to.
unfoldable pub point_to_str : List ℕ → ℕ → ℕ → List ℕ → Option (List ℕ)
point_to_str dst size decimals buffer =
    let n = length buffer in
    if leb n decimals
    then (if leb size (2 + decimals - n)
        then none
        else some (
            write_at dst 0 (
              (48 ∷ (46 ∷ replicate (decimals - n) 48))
              ++ strncpy (buffer ++ (0 ∷ [])) (size - (2 + decimals - n)))))
    else (if leb size (n + 1 + decimals)
        then none
        else some
            (write_at dst 0 (take (n - decimals) buffer ++ (46 ∷ drop (n - decimals) buffer))))

unfoldable pub fpuint64_to_str : List ℕ → ℕ → ℕ → ℕ → Option (List ℕ)
fpuint64_to_str dst size value decimals = elim (int64_to_str 30 value) [
  | none ↦ none
  | some buffer ↦ point_to_str dst size decimals buffer
]

-- The exponent is cut to the uint8_t `decimals`.
unfoldable pub get_fiat_printable_amount : List ℕ → ℕ → List ℕ → ℕ → Option (List ℕ)
get_fiat_printable_amount amount_be exponent printable_amount printable_amount_len =
    fpuint64_to_str printable_amount printable_amount_len (uint64_from_be_array 0 amount_be)
      (exponent % 256)
