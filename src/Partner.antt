-- ===== src/Partner.antt =====
-- src/set_partner_key.c and src/check_partner.c: the credentials of the exchange partner, and the
-- check that Ledger has signed them.
use app_exchange.Common.{
  ℕ, ◌+◌, not, ◌||◌, ◌==◌, ltb, if◌then◌else◌, List, [], ◌∷◌, ◌++◌, Option, none, some, length,
  drop, replicate, write_at, codes, c_string, strncpy,
}
use app_exchange.Protocol.States.{provider_set, provider_checked}
use app_exchange.Protocol.Errors.{
  incorrect_command_data, internal_error, sign_verification_fail, success,
}
use app_exchange.Protocol.Commands.{Subcommand, swap, sell, fund, subcommand_eq, is_fund, Command}
use app_exchange.Buf.{parse_to_sized_buffer, pop_uint8_from_buffer}
use app_exchange.CoinConfig.{min_der_signature_length, max_der_signature_length}
use app_exchange.Context.{Context, partner_name_size}
use app_exchange.Platform.{Platform, Env, Curve, secp256k1, secp256r1}
use app_exchange.Handler.{
  M, ◌>>=◌, ◌>>◌, require, from_option, read, modify, Outcome, conclude, status_only, enter,
}

abbrev pub uncompressed_key_length : ℕ
uncompressed_key_length = 65

pub record Credentials : Type 0 where
  pub partner_name : List ℕ
  pub raw_pubkey : List ℕ
  pub curve : Curve

-- The curve of the key and the new offset: fixed for the legacy flows, read for the NG ones.
unfoldable pub read_curve : Subcommand → List ℕ → ℕ → Option (Curve × ℕ)
read_curve subcommand payload offset =
    if subcommand_eq subcommand swap
    then some (secp256k1, offset)
    else if subcommand_eq subcommand sell || subcommand_eq subcommand fund
    then some (secp256r1, offset)
    else elim (pop_uint8_from_buffer payload offset) [
      | none ↦ none
      | some (curve_id, offset') ↦
          if curve_id == 0x00
          then some (secp256k1, offset')
          else if curve_id == 0x01
          then some (secp256r1, offset')
          else none
    ]

-- `none` is the only error of the parser, INCORRECT_COMMAND_DATA.
unfoldable pub parse_set_partner_key_command :
    (ℕ → ℕ → ℕ) → Subcommand → List ℕ → Option Credentials
parse_set_partner_key_command u2be subcommand payload =
    elim (parse_to_sized_buffer u2be payload 1 0) [
      | none ↦ none
      | some (name, offset) ↦
          if ltb (length name) 3 || ltb 15 (length name)
          then none
          else elim (read_curve subcommand payload offset) [
            | none ↦ none
            | some (curve, offset') ↦
                if not (offset' + uncompressed_key_length == length payload)
                then none
                else some (record {
                  partner_name = name;
                  raw_pubkey = drop offset' payload;
                  curve = curve;
                })
          ]
    ]

-- The name as it is displayed: "To " in front of it for FUND, in the memory of the union.
unfoldable pub store_partner_name : Subcommand → List ℕ → List ℕ → List ℕ
store_partner_name subcommand memory name =
    if is_fund subcommand
    then write_at (replicate partner_name_size 0) 0 (codes "To " ++ (c_string name ++ (0 ∷ [])))
    else write_at (write_at memory 0 (replicate 16 0)) 0 (strncpy name (length name))

set_partner_key_steps : Platform → Command → M (Unit {0})
set_partner_key_steps p cmd = do
  partner ←
      from_option (parse_set_partner_key_command p.u2be cmd.subcommand cmd.payload)
        incorrect_command_data
  modify (λ ctx. record ctx {
    partner_name = store_partner_name ctx.subcommand ctx.partner_name partner.partner_name;
  })
  modify (λ ctx. record ctx {
    partner_public_key = (p.init_public_key partner.curve partner.raw_pubkey).1;
  })
  require (p.init_public_key partner.curve partner.raw_pubkey).0 internal_error
  modify (λ ctx. record ctx { sha256_digest_no_prefix = (p.sha256 cmd.payload).1 })
  require (p.sha256 cmd.payload).0 internal_error

unfoldable pub set_partner_key : Platform → Env → Command → Context → Outcome
unfolding set_partner_key_steps conclude
set_partner_key p env cmd ctx =
    conclude env (status_only success) (enter provider_set) (set_partner_key_steps p cmd ctx)

check_partner_steps : Platform → Command → M (Unit {0})
check_partner_steps p cmd = do
  require
      (not (
        ltb (length cmd.payload) min_der_signature_length
        || ltb max_der_signature_length (length cmd.payload)))
      incorrect_command_data
  verified ←
      read (λ ctx. p.ecdsa_verify ctx.ledger_public_key ctx.sha256_digest_no_prefix cmd.payload)
  require verified sign_verification_fail

unfoldable pub check_partner : Platform → Env → Command → Context → Outcome
unfolding check_partner_steps conclude
check_partner p env cmd ctx =
    conclude env (status_only success) (enter provider_checked) (check_partner_steps p cmd ctx)
