-- ===== src/Process/Unframing.antt =====
-- A command that is taken apart was framed.
use app_exchange.Process.Framing.{parse_transaction-framed}
use app_exchange.Common.{◌↔◌}
use app_exchange.Common.{◌∙◌}
use app_exchange.Common.{◌∙◌}
use app_exchange.Buf.Splitting.{drop_at_end}
use app_exchange.Buf.Splitting.{parse_to_sized_buffer_split_wide}
use app_exchange.Signature.Formats.{legacy_not}
use app_exchange.Buf.Splitting.{parse_to_sized_buffer_split}
use app_exchange.Buf.{pop_uint8_from_buffer}
use app_exchange.Common.{
  ℕ, ◌≤◌, ◌<◌, ◌≡◌, refl, sym, ap, ◌∙◌, Bool, true, false, List, [], ◌∷◌, ◌++◌, some, ◌⊎◌, inl, inr,
  length, arith, append-nil, drop, Option-cases,
}
use app_exchange.Protocol.Commands.{Subcommand, swap, sell, fund, swap_ng, sell_ng, fund_ng}
use app_exchange.Signature.Formats.{IsNg, selector_of}
use app_exchange.Buf.{parse_to_sized_buffer}
use app_exchange.Process.Payload.{
  TransactionParts, read_encoding, payload_length_field_size, parse_transaction,
}
use app_exchange.Process.Framing.{
  IsLegacy, plain_swap, base64_sell, base64_fund, parts_of, FramedAs, legacy, selected,
}
use mathlib.Core.Path.{subst}

Flow : Subcommand → Bool → Type 0
Flow c is_base64 = IsLegacy c is_base64 ⊎ IsNg c

module _ (u2be : ℕ → ℕ → ℕ) where
  -- The three reads of a command that is taken apart.
  pub record Reads (c : Subcommand) (input : List ℕ) (parts : TransactionParts) : Type 0 where
    pub start : ℕ
    pub next : ℕ
    pub encoding : read_encoding c input ≡ some (parts.needs_base64_decoding, start)
    pub first :
        parse_to_sized_buffer u2be input (payload_length_field_size c) start
        ≡ some (parts.payload, next)
    pub second : parse_to_sized_buffer u2be input 1 next ≡ some (parts.fees, length input)
    pub few : length parts.fees ≤ 16

  parse_transaction-Reads :
      (c : Subcommand) (input : List ℕ) (parts : TransactionParts)
      → parse_transaction u2be c input ≡ some parts
      → Reads c input parts
  unfolding parse_transaction
  parse_transaction-Reads c input parts h = elim (Option-cases (read_encoding c input)) [
    | inl e ↦ absurd (ground arith)
    | inr ((is_base64, start), e1) ↦
        elim (Option-cases (parse_to_sized_buffer u2be input (payload_length_field_size c) start)) [
          | inl e ↦ absurd (ground arith)
          | inr ((payload, next), e2) ↦
              elim (Option-cases (parse_to_sized_buffer u2be input 1 next)) [
                | inl e ↦ absurd (ground arith)
                | inr ((fees, end), e3) ↦
                    let end_ok : end ≡ length input = ground (arith, e1, e2, e3, h) in
                    let few : length fees ≤ 16 = ground (arith, e1, e2, e3, h) in
                    let same : parts_of payload fees is_base64 ≡ parts =
                      ground (arith, e1, e2, e3, h) in
                    subst (Reads c input) same (record {
                      start = start;
                      next = next;
                      encoding = e1;
                      first = e2;
                      second = rw (← end_ok) e3;
                      few = few;
                    })
              ]
        ]
  ]

  ng_encoding :
      (c : Subcommand) (input : List ℕ) (is_base64 : Bool) (start : ℕ)
      → IsNg c
      → read_encoding c input ≡ some (is_base64, start)
      → (start ≡ 1)
        × (payload_length_field_size c ≡ 2)
        × (rest : List ℕ) × (input ≡ selector_of is_base64 ∷ rest)
  unfolding read_encoding pop_uint8_from_buffer
  ng_encoding c [] is_base64 start ng h =
      let (no_swap, no_fund, no_sell) = legacy_not c ng in
      let h' = rw (no_swap, no_fund, no_sell) at h in absurd (ground arith)
  ng_encoding c (b ∷ rest) is_base64 start ng h =
      let (no_swap, no_fund, no_sell) = legacy_not c ng in
      let h' = rw (no_swap, no_fund, no_sell) at h in
      let first : start ≡ 1 = ground arith in
      let named : b ≡ selector_of is_base64 = ground arith in
      (first, rw (no_swap, no_fund, no_sell) refl, rest, ap (λ b. b ∷ rest) named)

  -- What the encoding tells of the flow.
  encoding-cases :
      (c : Subcommand) (input : List ℕ) (is_base64 : Bool) (start : ℕ)
      → read_encoding c input ≡ some (is_base64, start)
      → (IsLegacy c is_base64 × (start ≡ 0) × (payload_length_field_size c ≡ 1)) ⊎ IsNg c
  unfolding read_encoding
  encoding-cases swap input is_base64 start h =
      let same : false ≡ is_base64 = ground arith in
      inl (subst (IsLegacy swap) same plain_swap, ground arith, refl)
  encoding-cases sell input is_base64 start h =
      let same : true ≡ is_base64 = ground arith in
      inl (subst (IsLegacy sell) same base64_sell, ground arith, refl)
  encoding-cases fund input is_base64 start h =
      let same : true ≡ is_base64 = ground arith in
      inl (subst (IsLegacy fund) same base64_fund, ground arith, refl)
  encoding-cases swap_ng input is_base64 start h = inr (inl refl)
  encoding-cases sell_ng input is_base64 start h = inr (inr (inl refl))
  encoding-cases fund_ng input is_base64 start h = inr (inr (inr refl))

  -- The fees stand behind the payload and end the command.
  fees_behind :
      (input : List ℕ) (next : ℕ) (fees : List ℕ)
      → length input < 65536
      → parse_to_sized_buffer u2be input 1 next ≡ some (fees, length input)
      → drop next input ≡ length fees ∷ fees
  fees_behind input next fees fits h =
      parse_to_sized_buffer_split u2be input next (length input) fees fits h
      ∙ ap (λ t. length fees ∷ t)
          (ap (λ t. fees ++ t) (drop_at_end input (length input) refl) ∙ append-nil fees)

  -- Whatever is taken apart, as a command of less than 65536 bytes, was framed so, with at most 16
  -- bytes of fees.
  parse_transaction_sound :
      (c : Subcommand) (input : List ℕ) (parts : TransactionParts)
      → length input < 65536
      → parse_transaction u2be c input ≡ some parts
      → FramedAs u2be c input parts × (length parts.fees ≤ 16)
  parse_transaction_sound c input parts fits h =
      let r = parse_transaction-Reads c input parts h in
      let fees = fees_behind input r.next parts.fees fits r.second in
      elim (encoding-cases c input parts.needs_base64_decoding r.start r.encoding) [
        | inl (flow, start, width) ↦
            let first = rw (start, width) at r.first in
            let split : input
                ≡ length parts.payload ∷ (parts.payload ++ (length parts.fees ∷ parts.fees)) =
              parse_to_sized_buffer_split u2be input 0 r.next parts.payload fits first
              ∙ ap (λ t. length parts.payload ∷ (parts.payload ++ t)) fees in
            (
              subst (λ t. FramedAs u2be c t parts) (sym split)
                  (legacy parts.needs_base64_decoding parts.payload parts.fees flow),
              r.few,
            )
        | inr ng ↦
            let (start, width, rest, named) =
              ng_encoding c input parts.needs_base64_decoding r.start ng r.encoding in
            let first = rw (start, width) at r.first in
            let (hi, lo, size, split) =
              parse_to_sized_buffer_split_wide u2be input 1 r.next parts.payload fits first in
            let a = selector_of parts.needs_base64_decoding in
            let whole : input
                ≡ a ∷ (hi ∷ (lo ∷ (parts.payload ++ (length parts.fees ∷ parts.fees)))) =
              named
              ∙ ap (λ t. a ∷ t)
                  (sym (ap (λ t. drop 1 t) named)
                    ∙ (split ∙ ap (λ t. hi ∷ (lo ∷ (parts.payload ++ t))) fees)) in
            (
              subst (λ t. FramedAs u2be c t parts) (sym whole)
                  (selected parts.needs_base64_decoding hi lo parts.payload parts.fees ng size),
              r.few,
            )
      ]

  -- A command of less than 65536 bytes is taken apart into payload, fees and encoding exactly if it is
  -- their frame in its flow, and the fees have at most 16 bytes.
  pub parse_transaction-FramedAs :
      (c : Subcommand) (input : List ℕ) (parts : TransactionParts)
      → length input < 65536
      → (parse_transaction u2be c input ≡ some parts)
        ↔ (FramedAs u2be c input parts × (length parts.fees ≤ 16))
  parse_transaction-FramedAs c input parts fits = (
    parse_transaction_sound c input parts fits,
    λ (framed, few). parse_transaction-framed u2be c input parts framed few fits,
  )
