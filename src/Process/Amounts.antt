-- ===== src/Process/Amounts.antt =====
-- The value of an amount whose leading zeros are trimmed.
use app_exchange.Common.{
  ℕ, zero, suc, ◌+◌, ◌-◌, ◌≤◌, ◌≡◌, refl, sym, ap, ◌∙◌, ◌==◌, List, [], ◌∷◌, ◌++◌, length, take,
  drop, arith, length-take, length-drop, take-append_left, Bool-cases, inl, inr,
}
use app_exchange.Context.{PbBytes}
use app_exchange.Process.Checks.{leading_zeros, trim_pb_bytes_array}
use app_exchange.Der.Values.{be_value}

-- The number that an amount is, in big-endian bytes.
abbrev pub amount_value : PbBytes → ℕ
amount_value t = be_value 0 (take t.size t.bytes)

leading_zeros_le : (bytes : List ℕ) (n : ℕ) → leading_zeros bytes n ≤ n
unfolding leading_zeros
leading_zeros_le bytes zero = omega arith
leading_zeros_le [] (suc n) = omega arith
leading_zeros_le (b ∷ bytes) (suc n) = ground (arith, leading_zeros_le bytes n)

stripped_value :
    (bytes : List ℕ) (n : ℕ)
    → be_value 0 (take (n - leading_zeros bytes n) (drop (leading_zeros bytes n) bytes))
      ≡ be_value 0 (take n bytes)
unfolding leading_zeros
stripped_value bytes zero = refl
stripped_value [] (suc n) = ground arith
stripped_value (b ∷ bytes) (suc n) = elim (Bool-cases (b == 0)) [
  | inl e ↦ ground (arith, stripped_value bytes n)
  | inr e ↦ let same : suc n - 0 ≡ suc n = omega arith in rw (e, same) refl
]

-- Trimming an amount that lies within its array keeps its value, and its size does not grow.
pub trim_pb_bytes_array-value :
    (t : PbBytes)
    → t.size ≤ length t.bytes
    → (amount_value (trim_pb_bytes_array t) ≡ amount_value t)
      × ((trim_pb_bytes_array t).size ≤ t.size)
unfolding trim_pb_bytes_array
trim_pb_bytes_array-value t fits =
    let i = leading_zeros t.bytes t.size in
    let size = t.size - i in
    let rest = take size (drop i t.bytes) in
    let len : length rest ≡ size = omega (
      arith,
      length-take size (drop i t.bytes),
      length-drop i t.bytes,
      leading_zeros_le t.bytes t.size,
    ) in
    let front : take size (rest ++ drop (0 + length rest) t.bytes) ≡ rest =
      ap (λ n. take n (rest ++ drop (0 + length rest) t.bytes)) (sym len)
      ∙ take-append_left rest (drop (0 + length rest) t.bytes) in
    elim (Bool-cases (i == 0)) [
      | inl e ↦ rw e (refl, omega arith)
      | inr e ↦ rw e (ap (be_value 0) front ∙ stripped_value t.bytes t.size, omega arith)
    ]
