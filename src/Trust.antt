-- ===== src/Trust.antt =====
-- What the context owes to signatures, state by state: the chain from Ledger's key to the partner's
-- key, and from there to the transaction that is shown and signed.
pub mod Partner
pub mod Transaction
pub mod Process
pub mod Frame
pub mod Approval
pub mod Calls
pub mod Run
pub mod Screens
pub mod Dispatch
pub mod Names
pub mod Display
use app_exchange.Common.{ℕ, ◌≤◌, ◌≡◌, Bool, true, List, [], ◌∷◌, Option, some}
use app_exchange.Protocol.States.{State, state_value}
use app_exchange.Protocol.Commands.{Subcommand}
use app_exchange.Context.{
  Context, Transaction as Message, raw_transaction, swap_transaction, sell_transaction,
  fund_transaction,
}
use app_exchange.Platform.{Platform}
use app_exchange.Session.{ledger_key}
use app_exchange.Partner.{Credentials, parse_set_partner_key_command}
use app_exchange.Process.Payload.{to_deserialize, pb_decode}
use app_exchange.Process.Checks.{ids_match, normalize_currencies, trim_amounts}
use app_exchange.Signature.{signed_digest}

-- The partner's key is the one of some credentials of the current flow.
abbrev pub HasKeyOf : Platform → Context → List ℕ → Type 0
HasKeyOf p ctx credentials =
    (c : Credentials) × (parse_set_partner_key_command p.u2be ctx.subcommand credentials ≡ some c)
    × ((p.init_public_key c.curve c.raw_pubkey).0 ≡ true)
    × (ctx.partner_public_key ≡ (p.init_public_key c.curve c.raw_pubkey).1)

-- The credentials are loaded, and their digest is kept for the check of Ledger's signature.
abbrev pub IsLoaded : Platform → Context → Type 0
IsLoaded p ctx =
    (credentials : List ℕ) × HasKeyOf p ctx credentials
    × (ctx.sha256_digest_no_prefix ≡ (p.sha256 credentials).1)

-- Ledger has signed the credentials.
abbrev pub IsCertified : Platform → Context → Type 0
IsCertified p ctx =
    (credentials : List ℕ) × (signature : List ℕ) × HasKeyOf p ctx credentials
    × (p.ecdsa_verify (ledger_key p) (p.sha256 credentials).1 signature ≡ true)

-- A swap's payout and refund addresses may be replaced by descriptors; the rest may not.
abbrev pub without_own_addresses : Message → Message
without_own_addresses (swap_transaction t) =
    swap_transaction (record t { payout_address = []; refund_address = [] })
without_own_addresses (raw_transaction b) = raw_transaction b
without_own_addresses (sell_transaction t) = sell_transaction t
without_own_addresses (fund_transaction t) = fund_transaction t

abbrev pub normal_form : Platform → Subcommand → Message → Message
normal_form p s t = trim_amounts p.layout s (normalize_currencies p.layout s t)

-- The transaction is what a payload decodes to, for the identifier that the device has drawn, and
-- the digests are those of that payload.
abbrev pub IsReceived : Platform → Context → Type 0
IsReceived p ctx =
    (payload : List ℕ) × (is_base64 : Bool) × (bytes : List ℕ) × (to_deserialize p payload is_base64
      ≡ some bytes)
    × ((pb_decode p ctx.subcommand bytes).0 ≡ true)
    × (ids_match p ctx.subcommand ctx.device_transaction_id (pb_decode p ctx.subcommand bytes).1
        ≡ true)
    × (without_own_addresses ctx.transaction
        ≡ without_own_addresses (normal_form p ctx.subcommand (pb_decode p ctx.subcommand bytes).1))
    × (ctx.sha256_digest_prefixed ≡ (p.sha256 (b'.' ∷ payload)).1)
    × (ctx.sha256_digest_no_prefix ≡ (p.sha256 payload).1)

-- The partner has signed the payload, with or without a dot in front.
abbrev pub IsSigned : Platform → Context → Type 0
IsSigned p ctx =
    (signature : List ℕ) × (dot_prefixed : Bool) × (p.ecdsa_verify ctx.partner_public_key
        (signed_digest dot_prefixed ctx) signature
      ≡ true)

-- The facts that hold in each state; `state_value` numbers the states in the order of the flow.
pub record IsTrusted (p : Platform) (ctx : Context) : Type 0 where
  pub ledger : 1 ≤ state_value ctx.state → ctx.ledger_public_key ≡ ledger_key p
  pub loaded : state_value ctx.state ≡ 2 → IsLoaded p ctx
  pub certified : 3 ≤ state_value ctx.state → IsCertified p ctx
  pub received : 4 ≤ state_value ctx.state → IsReceived p ctx
  pub signed : 5 ≤ state_value ctx.state → IsSigned p ctx
