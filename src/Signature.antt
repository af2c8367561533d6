-- ===== src/Signature.antt =====
-- src/check_tx_signature.c: the signature of the partner on the transaction.
pub mod Formats
use app_exchange.Common.{
  ℕ, ◌+◌, Bool, true, false, not, ◌||◌, ◌==◌, ltb, if◌then◌else◌, List, Option, none, some, length,
  take, drop, get_or,
}
use app_exchange.Common.Maybe
use app_exchange.Protocol.States.{signature_checked}
use app_exchange.Protocol.Errors.{incorrect_command_data, sign_verification_fail, success}
use app_exchange.Protocol.Commands.{Subcommand, swap, fund, sell, subcommand_eq, Command}
use app_exchange.Buf.{pop_uint8_from_buffer}
use app_exchange.CoinConfig.{min_der_signature_length, max_der_signature_length}
use app_exchange.Der.{asn1_get_encoded_integer_size, encode_sig_der}
use app_exchange.Context.{Context}
use app_exchange.Platform.{Platform, Env}
use app_exchange.Handler.{
  M, ◌>>=◌, ◌>>◌, require, from_option, read, Outcome, conclude, status_only, enter,
}

-- How the signature is written and what it signs, with the offset behind the selectors.
pub record SignatureForm : Type 0 where
  pub in_r_s_format : Bool
  pub on_dot_prefixed_tx : Bool
  pub offset : ℕ

-- The value of a selector byte of the NG flows: 0 is false, 1 is true.
abbrev pub selector : ℕ → Option Bool
selector b = if b == 0x00 then some false else if b == 0x01 then some true else none

read_selectors : List ℕ → Option SignatureForm
read_selectors payload = Maybe.◌>>=◌ (pop_uint8_from_buffer payload 0) (λ first.
    Maybe.◌>>=◌ (selector first.0) (λ dot_prefixed.
      Maybe.◌>>=◌ (pop_uint8_from_buffer payload first.1) (λ second.
        Maybe.◌>>=◌ (selector second.0) (λ r_s.
          some (record {
            in_r_s_format = r_s;
            on_dot_prefixed_tx = dot_prefixed;
            offset = second.1;
          })))))

unfoldable pub signature_form : Subcommand → List ℕ → Option SignatureForm
unfolding read_selectors
signature_form subcommand payload =
    if subcommand_eq subcommand swap
    then some (record { in_r_s_format = false; on_dot_prefixed_tx = false; offset = 0 })
    else if subcommand_eq subcommand fund
    then some (record { in_r_s_format = false; on_dot_prefixed_tx = true; offset = 0 })
    else if subcommand_eq subcommand sell
    then some (record { in_r_s_format = true; on_dot_prefixed_tx = true; offset = 0 })
    else read_selectors payload

abbrev pub r_s_int_size : ℕ
r_s_int_size = 32

-- sizeof(der_sig): the header and two integers of at most 37 bytes.
abbrev pub der_sig_size : ℕ
der_sig_size = 76

unfoldable pub der_of_der : List ℕ → M (List ℕ)
der_of_der input = do
  require
      (not (
        ltb (length input) min_der_signature_length || ltb max_der_signature_length (length input)))
      incorrect_command_data
  require (get_or input 1 0 + 2 == length input) incorrect_command_data
  read (λ _. input)

unfoldable pub der_of_r_s : List ℕ → M (List ℕ)
der_of_r_s input = do
  require (length input == 64) incorrect_command_data
  let r = take r_s_int_size input
  let s = drop r_s_int_size input
  let size = asn1_get_encoded_integer_size r + asn1_get_encoded_integer_size s + 2
  require (not (ltb der_sig_size size)) sign_verification_fail
  from_option (encode_sig_der size r s) sign_verification_fail

-- The digest that the signature is checked against.
abbrev pub signed_digest : Bool → Context → List ℕ
signed_digest dot_prefixed ctx =
    if dot_prefixed then ctx.sha256_digest_prefixed else ctx.sha256_digest_no_prefix

-- The signature in DER form, received as such or encoded here.
unfoldable pub received_signature : SignatureForm → List ℕ → M (List ℕ)
received_signature form payload =
    let input = drop form.offset payload in
    if form.in_r_s_format then der_of_r_s input else der_of_der input

unfoldable pub verify_signature : Platform → SignatureForm → List ℕ → M (Unit {0})
verify_signature p form signature = do
  verified ← read (λ ctx.
      p.ecdsa_verify ctx.partner_public_key (signed_digest form.on_dot_prefixed_tx ctx) signature)
  require verified sign_verification_fail

unfoldable pub check_tx_signature_steps : Platform → Command → M (Unit {0})
check_tx_signature_steps p cmd = do
  form ← from_option (signature_form cmd.subcommand cmd.payload) incorrect_command_data
  signature ← received_signature form cmd.payload
  verify_signature p form signature

unfoldable pub check_tx_signature : Platform → Env → Command → Context → Outcome
check_tx_signature p env cmd ctx =
    conclude env (status_only success) (enter signature_checked)
      (check_tx_signature_steps p cmd ctx)
