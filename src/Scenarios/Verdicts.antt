-- ===== src/Scenarios/Verdicts.antt =====
-- Tickers, refusals and verdicts at concrete inputs.
use app_exchange.Context.{zeroed}
use app_exchange.Context.Memory.{as_swap}
use app_exchange.Session.{new_transaction_id}
use app_exchange.Session.{random_letters}
use app_exchange.Common.{bytes_eq}
use app_exchange.Handler.{conclude}
use app_exchange.Process.Checks.{has_extra_data}
use app_exchange.Process.Checks.{ids_match}
use app_exchange.Process.Checks.{check_extra_id_extra_data}
use app_exchange.Process.Payload.{to_deserialize}
use app_exchange.Partner.{check_partner}
use app_exchange.Partner.{read_curve}
use app_exchange.Buf.{read_size}
use app_exchange.Buf.{parse_to_sized_buffer}
use app_exchange.Partner.{parse_set_partner_key_command}
use app_exchange.Partner.{set_partner_key}
use app_exchange.Session.{start_new_transaction}
use app_exchange.Common.{
  ℕ, ◌∷◌, ◌≡◌, ◌≤◌, ◌↔◌, ◌&&◌, refl, List, [], ◌++◌, true, false, some, codes, replicate, arith,
  c_string, length, if◌then◌else◌, write_at,
}
use app_exchange.Protocol.Errors.{error_value, success, sign_verification_fail}
use app_exchange.Protocol.States.{signature_checked, transaction_received}
use app_exchange.Protocol.Commands.{swap, check_transaction_signature_command}
use app_exchange.Handler.{status_only, enter}
use app_exchange.Ticker.{check_matching_ticker, normalize_currency}
use app_exchange.Ticker.Naming.{starts_with}
use app_exchange.Ticker.Assets.{IsPlain, asset, capitals, check_matching_ticker-asset}
use app_exchange.Application.{Event, apdu}
use app_exchange.Application.Cycle.{boot, step, receive_apdu, run_verdict}
use app_exchange.ApduParser.Reception.{check_apdu_validity}
use app_exchange.Refusals.{reports_error, StaysOrEnds}
use app_exchange.Refusals.Steps.{step-refusal}
use app_exchange.Signature.{check_tx_signature, signed_digest}
use app_exchange.Signature.Formats.{legacy_swap, check_tx_signature-verdict}
use app_exchange.Process.{process_transaction}
use app_exchange.Process.Payload.{TransactionParts, parse_transaction, pb_decode}
use app_exchange.Process.Framing.{FramedAs, legacy, plain_swap}
use app_exchange.Process.Unframing.{parse_transaction-FramedAs}
use app_exchange.Process.Acceptance.{IsAcceptable, process_transaction-accepts}
use app_exchange.Trust.{normal_form}
use app_exchange.Scenarios.Device.{device, calm, u2be}
use app_exchange.Scenarios.{context3, context4, proposal, signature_of}

abbrev usdt : List ℕ
usdt = codes "usdt" ++ replicate 6 0

usdt20-IsPlain : IsPlain (codes "USDT20")
unfolding starts_with
usdt20-IsPlain = record { usdt = λ _. refl; rep = λ h. absurd (ground arith) }

usdt-IsPlain : IsPlain (c_string usdt)
unfolding starts_with c_string
usdt-IsPlain = record { usdt = λ h. absurd (ground arith); rep = λ h. absurd (ground arith) }

check_matching_ticker-asset_example :
    (check_matching_ticker (codes "USDT20") (normalize_currency usdt) ≡ true)
    ↔ (asset (capitals (c_string usdt)) ≡ asset (capitals (codes "USDT20")))
check_matching_ticker-asset_example =
    check_matching_ticker-asset (codes "USDT20") usdt (ground arith) (omega arith) (omega arith)
      usdt20-IsPlain usdt-IsPlain

-- An APDU of another class.
abbrev foreign_apdu : Event
foreign_apdu = apdu calm (0x00 ∷ (0x03 ∷ (0 ∷ (0 ∷ (0 ∷ [])))))

foreign_apdu-error : reports_error (step device (boot device calm) foreign_apdu).1 ≡ true
unfolding step receive_apdu run_verdict check_apdu_validity reports_error error_value
foreign_apdu-error = refl

step-refusal_example :
    StaysOrEnds (boot device calm).context (step device (boot device calm) foreign_apdu).0.context
step-refusal_example = step-refusal device (boot device calm) foreign_apdu foreign_apdu-error

abbrev signature : List ℕ
signature = 0x30 ∷ (68 ∷ replicate 68 1)

check_tx_signature-verdict_example :
    let verified =
      device.ecdsa_verify context4.partner_public_key (signed_digest false context4) signature in
    let o =
      check_tx_signature device calm (signature_of check_transaction_signature_command) context4 in
    (o.attempted ≡ status_only (if verified then success else sign_verification_fail) ∷ [])
    × (o.context ≡ (
        if verified && calm.sends (status_only success)
        then enter signature_checked context4
        else context4))
check_tx_signature-verdict_example =
    check_tx_signature-verdict device calm (signature_of check_transaction_signature_command)
      context4 false signature
      (legacy_swap (record { long = omega arith; short = omega arith; header = refl }))

abbrev parts : TransactionParts
parts = record { payload = 1 ∷ (2 ∷ (3 ∷ [])); fees = 9 ∷ []; needs_base64_decoding = false }

parse_transaction-FramedAs_example :
    (parse_transaction u2be swap proposal.payload ≡ some parts)
    ↔ (FramedAs u2be swap proposal.payload parts × (length parts.fees ≤ 16))
parse_transaction-FramedAs_example =
    parse_transaction-FramedAs u2be swap proposal.payload parts (omega arith)

acceptable : IsAcceptable device swap context3 parts
unfolding start_new_transaction set_partner_key parse_set_partner_key_command parse_to_sized_buffer
    read_size read_curve check_partner to_deserialize pb_decode check_extra_id_extra_data ids_match
    has_extra_data conclude bytes_eq random_letters new_transaction_id as_swap zeroed
acceptable = record {
  bytes = 1 ∷ (2 ∷ (3 ∷ []));
  hashes = refl;
  hashes_prefixed = refl;
  hashes_plain = refl;
  decodes = refl;
  is_message = refl;
  extra_data = refl;
  has_id = refl;
}

process_transaction-accepts_example :
    let o = process_transaction device calm proposal context3 in
    (o.attempted ≡ status_only success ∷ [])
    × (o.context.state ≡ transaction_received)
    × (o.context.transaction ≡ normal_form device swap (pb_decode device swap acceptable.bytes).1)
    × (o.context.transaction_fee ≡ write_at (replicate 16 0) 0 parts.fees)
    × (o.context.transaction_fee_length ≡ length parts.fees)
process_transaction-accepts_example =
    process_transaction-accepts device calm proposal context3 parts (omega arith)
      (legacy false (1 ∷ (2 ∷ (3 ∷ []))) (9 ∷ []) plain_swap) (omega arith) acceptable refl
