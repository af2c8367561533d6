-- ===== src/CheckAddressMessage/Splitting.antt =====
-- The check-address message is cut into its three parts, and nothing is left over.
use app_exchange.Common.{
  ℕ, suc, ◌+◌, ◌-◌, ◌%◌, ◌≤◌, ◌<◌, ◌≡◌, ap, ◌∙◌, List, ◌∷◌, ◌++◌, some, length, arith, append-nil,
  Option-cases, inl, inr, take, drop, get_or, take-append_left,
}
use app_exchange.Buf.{parse_to_sized_buffer}
use app_exchange.Buf.Reading.{parse_to_sized_buffer_bounds}
use app_exchange.Buf.Splitting.{parse_to_sized_buffer_split, drop_at_end, drop_next}
use app_exchange.CoinConfig.{check_der_signature_length}
use app_exchange.CheckAddressMessage.{
  CheckAddressMessage, parse_der_signature, parse_check_address_message,
}

take_two :
    (x y : ℕ) (content rest : List ℕ)
    → take (length content + 2) (x ∷ (y ∷ (content ++ rest))) ≡ x ∷ (y ∷ content)
take_two x y content rest =
    let two : length content + 2 ≡ suc (suc (length content)) = omega arith in
    rw two (ap (λ t. x ∷ (y ∷ t)) (take-append_left content rest))

-- The signature is what stands in front of the new offset, two header bytes included.
parse_der_signature_split :
    (u2be : ℕ → ℕ → ℕ) (input : List ℕ) (offset offset' : ℕ) (der : List ℕ)
    → length input < 65535
    → offset ≤ length input
    → parse_der_signature u2be input offset ≡ some (der, offset')
    → drop offset input ≡ der ++ drop offset' input
unfolding parse_der_signature
parse_der_signature_split u2be input offset offset' der fits le h =
    elim (Option-cases (parse_to_sized_buffer u2be input 1 ((offset + 1) % 65536))) [
      | inl e ↦ absurd (ground arith)
      | inr ((content, end), e) ↦
          let no_wrap : (offset + 1) % 65536 ≡ offset + 1 = omega arith in
          let e' = rw no_wrap at e in
          let (at_end, in_range, header, slice) =
            parse_to_sized_buffer_bounds u2be input 1 (offset + 1) end content (omega arith) e' in
          let start : end - length content - 2 ≡ offset = omega arith in
          let parts =
            parse_to_sized_buffer_split u2be input (offset + 1) end content (omega arith) e' in
          let whole : drop offset input
              ≡ get_or input offset 0 ∷ (length content ∷ (content ++ drop end input)) =
            drop_next input offset (omega arith) ∙ ap (λ t. get_or input offset 0 ∷ t) parts in
          ground (
            arith,
            start,
            whole,
            take_two (get_or input offset 0) (length content) content (drop end input),
          )
    ]

-- A message of less than 65535 bytes that is accepted is a configuration behind its length, a
-- signature and parameters behind their length, with nothing behind them; the configuration and the
-- parameters are not empty, and the signature has 67 to 73 bytes.
pub parse_check_address_message_sound :
    (u2be : ℕ → ℕ → ℕ) (payload : List ℕ) (message : CheckAddressMessage)
    → length payload < 65535
    → parse_check_address_message u2be payload ≡ some message
    → (payload
        ≡ (length message.config ∷ message.config)
          ++ (message.der ++ (length message.address_parameters ∷ message.address_parameters)))
      × (1 ≤ length message.config)
      × (1 ≤ length message.address_parameters)
      × (67 ≤ length message.der)
      × (length message.der ≤ 73)
unfolding parse_check_address_message check_der_signature_length
parse_check_address_message_sound u2be payload message fits h =
    elim (Option-cases (parse_to_sized_buffer u2be payload 1 0)) [
      | inl e ↦ absurd (ground arith)
      | inr ((config, r1), e1) ↦ elim (Option-cases (parse_der_signature u2be payload r1)) [
        | inl e ↦ absurd (ground arith)
        | inr ((der, r2), e2) ↦ elim (Option-cases (parse_to_sized_buffer u2be payload 1 r2)) [
          | inl e ↦ absurd (ground arith)
          | inr ((parameters, r3), e3) ↦ ground (
            arith,
            parse_to_sized_buffer_bounds u2be payload 1 0 r1 config (omega arith) e1,
            parse_to_sized_buffer_split u2be payload 0 r1 config (omega arith) e1,
            parse_der_signature_split u2be payload r1 r2 der fits
                (omega
                  (arith, parse_to_sized_buffer_bounds u2be payload 1 0 r1 config (omega arith) e1))
                e2,
            parse_to_sized_buffer_split u2be payload r2 r3 parameters (omega arith) e3,
            drop_at_end payload r3,
            append-nil parameters,
          )
        ]
      ]
    ]
