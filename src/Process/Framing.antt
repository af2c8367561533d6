-- ===== src/Process/Framing.antt =====
-- How a transaction is framed in a command, flow by flow: its encoding, the payload and the fees.
use app_exchange.Common.{Bool-cases}
use app_exchange.Signature.Formats.{pop-first}
use app_exchange.Signature.Formats.{legacy_not}
use app_exchange.Common.{==_refl}
use app_exchange.Common.{
  ℕ, ◌+◌, ◌≤◌, ◌<◌, ◌≡◌, refl, ◌==◌, Bool, true, false, List, [], ◌∷◌, ◌++◌, some, inl, inr, length,
  arith, ltb, length-append, append-nil,
}
use app_exchange.Protocol.Commands.{Subcommand, swap, sell, fund}
use app_exchange.Signature.Formats.{IsNg, selector_of}
use mathlib.Core.Path.{subst}
use app_exchange.Buf.{parse_to_sized_buffer}
use app_exchange.Buf.Reading.{parse_to_sized_buffer_field, parse_to_sized_buffer_wide}
use app_exchange.Process.Payload.{
  TransactionParts, read_encoding, payload_length_field_size, parse_transaction,
}

abbrev pub parts_of : List ℕ → List ℕ → Bool → TransactionParts
parts_of payload fees is_base64 = record {
  payload = payload;
  fees = fees;
  needs_base64_decoding = is_base64;
}

-- The legacy flows fix the encoding, and whether it is base64.
pub data IsLegacy : Subcommand → Bool → Type 0 where
  plain_swap : IsLegacy swap false
  base64_sell : IsLegacy sell true
  base64_fund : IsLegacy fund true

-- The bytes that a command carries for a transaction. The others name the encoding, and give the
-- payload a length of two bytes.
pub data FramedAs (u2be : ℕ → ℕ → ℕ) : Subcommand → List ℕ → TransactionParts → Type 0 where
  legacy :
      {c : Subcommand} (is_base64 : Bool) (payload fees : List ℕ)
      → IsLegacy c is_base64
      → FramedAs u2be c
          (length payload ∷ (payload ++ (length fees ∷ fees)))
          (parts_of payload fees is_base64)
  selected :
      {c : Subcommand} (is_base64 : Bool) (hi lo : ℕ) (payload fees : List ℕ)
      → IsNg c
      → u2be hi lo ≡ length payload
      → FramedAs u2be c
          (selector_of is_base64 ∷ (hi ∷ (lo ∷ (payload ++ (length fees ∷ fees)))))
          (parts_of payload fees is_base64)

module _ (u2be : ℕ → ℕ → ℕ) where
  fees_read :
      (before fees : List ℕ)
      → length before + length fees + 1 < 65536
      → parse_to_sized_buffer u2be (before ++ (length fees ∷ fees)) 1 (length before)
        ≡ some (fees, length (before ++ (length fees ∷ fees)))
  fees_read before fees fits =
      let read = parse_to_sized_buffer_field u2be before fees [] fits in
      let whole : length (before ++ (length fees ∷ fees)) ≡ length before + 1 + length fees =
        omega (arith, length-append before (length fees ∷ fees)) in
      rw whole (
        subst
          (λ t.
            parse_to_sized_buffer u2be (before ++ (length fees ∷ t)) 1 (length before)
            ≡ some (fees, length before + 1 + length fees))
          (append-nil fees) read)

  parsed :
      (c : Subcommand) (is_base64 : Bool) (start size : ℕ) (before payload fees : List ℕ)
      → read_encoding c (before ++ (length fees ∷ fees)) ≡ some (is_base64, start)
      → payload_length_field_size c ≡ size
      → parse_to_sized_buffer u2be (before ++ (length fees ∷ fees)) size start
        ≡ some (payload, length before)
      → length before + length fees + 1 < 65536
      → length fees ≤ 16
      → parse_transaction u2be c (before ++ (length fees ∷ fees))
        ≡ some (parts_of payload fees is_base64)
  unfolding parse_transaction
  parsed c is_base64 start size before payload fees encoding width read fits few =
      let end : (length (before ++ (length fees ∷ fees)) == length (before ++ (length fees ∷ fees)))
          ≡ true =
        ==_refl _ in
      let small : ltb 16 (length fees) ≡ false = ground arith in
      rw (encoding, width, read, fees_read before fees fits, end, small) refl

  legacy_read :
      (c : Subcommand) (is_base64 : Bool) (input : List ℕ)
      → IsLegacy c is_base64
      → (read_encoding c input ≡ some (is_base64, 0)) × (payload_length_field_size c ≡ 1)
  unfolding read_encoding
  legacy_read c is_base64 input plain_swap = (refl, refl)
  legacy_read c is_base64 input base64_sell = (refl, refl)
  legacy_read c is_base64 input base64_fund = (refl, refl)

  selected_read :
      (c : Subcommand) (is_base64 : Bool) (rest : List ℕ)
      → IsNg c
      → (read_encoding c (selector_of is_base64 ∷ rest) ≡ some (is_base64, 1))
        × (payload_length_field_size c ≡ 2)
  unfolding read_encoding
  selected_read c is_base64 rest ng =
      let (no_swap, no_fund, no_sell) = legacy_not c ng in
      rw (no_swap, no_fund, no_sell, pop-first (selector_of is_base64) rest)
        (elim (Bool-cases is_base64) [ inl e ↦ rw e (refl, refl) | inr e ↦ rw e (refl, refl) ])

  -- A framed transaction is taken apart again, if its fees have at most 16 bytes and the command less
  -- than 65536.
  pub parse_transaction-framed :
      (c : Subcommand) (input : List ℕ) (parts : TransactionParts)
      → FramedAs u2be c input parts
      → length parts.fees ≤ 16
      → length input < 65536
      → parse_transaction u2be c input ≡ some parts
  parse_transaction-framed c input parts (legacy is_base64 payload fees flow) few fits =
      let before = length payload ∷ payload in
      let whole = length-append payload (length fees ∷ fees) in
      let (encoding, width) = legacy_read c is_base64 input flow in
      let next : length before ≡ 0 + 1 + length payload = omega arith in
      let read : parse_to_sized_buffer u2be (before ++ (length fees ∷ fees)) 1 0
          ≡ some (payload, length before) =
        rw next (parse_to_sized_buffer_field u2be [] payload (length fees ∷ fees) (omega arith)) in
      parsed c is_base64 0 1 before payload fees encoding width read (omega arith) few
  parse_transaction-framed c input parts (selected is_base64 hi lo payload fees ng size) few fits =
      let a = selector_of is_base64 in
      let before = a ∷ (hi ∷ (lo ∷ payload)) in
      let whole = length-append payload (length fees ∷ fees) in
      let (encoding, width) =
        selected_read c is_base64 (hi ∷ (lo ∷ (payload ++ (length fees ∷ fees)))) ng in
      let next : length before ≡ 1 + 2 + length payload = omega arith in
      let read : parse_to_sized_buffer u2be (before ++ (length fees ∷ fees)) 2 1
          ≡ some (payload, length before) =
        rw next (
          parse_to_sized_buffer_wide u2be (a ∷ []) payload (length fees ∷ fees) hi lo (omega arith)
            size) in
      parsed c is_base64 1 2 before payload fees encoding width read (omega arith) few
