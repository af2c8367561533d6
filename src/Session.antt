-- ===== src/Session.antt =====
-- src/init.c, src/start_new_transaction.c, src/get_version_handler.c and the challenge of
-- src/get_challenge_handler.c.
use app_exchange.Common.{
  ℕ, zero, suc, ◌+◌, ◌%◌, Bool, true, false, if◌then◌else◌, List, [], ◌∷◌, take, write_at,
}
use app_exchange.Protocol.States.{initial_state, waiting_transaction}
use app_exchange.Protocol.Errors.{internal_error, success}
use app_exchange.Protocol.Commands.{Subcommand, swap, subcommand_eq, Command}
use app_exchange.Context.{Context, zeroed}
use app_exchange.Platform.{Platform, Env, Response, secp256k1}
use app_exchange.Handler.{M, ◌>>◌, require, modify, Outcome, returned, conclude}

-- The ExchangeConfigSigner key: LedgerPubKey of a build without the test keys.
abbrev pub ledger_pub_key : List ℕ
ledger_pub_key =
    0x04 ∷ 0x0c ∷ 0x17 ∷ 0xfd ∷ 0xc5 ∷ 0xc0 ∷ 0x62 ∷ 0x9e ∷ 0xca ∷ 0x77 ∷ 0xe0 ∷ 0xa7 ∷ 0x10 ∷ 0xcd
    ∷ 0xe9 ∷ 0x66 ∷ 0xba ∷ 0xe1 ∷ 0xa3 ∷ 0x2c ∷ 0x84 ∷ 0xe3 ∷ 0x83 ∷ 0xe3 ∷ 0x28 ∷ 0xa5 ∷ 0x52
    ∷ 0x1c ∷ 0x28 ∷ 0x1e ∷ 0xfb ∷ 0xa4 ∷ 0x99 ∷ 0x07 ∷ 0x44 ∷ 0xea ∷ 0xbc ∷ 0xb5 ∷ 0x91 ∷ 0xb0
    ∷ 0xd8 ∷ 0xbe ∷ 0x59 ∷ 0x8a ∷ 0x2f ∷ 0xfa ∷ 0xca ∷ 0x8d ∷ 0x29 ∷ 0xbc ∷ 0x79 ∷ 0xfb ∷ 0x20
    ∷ 0x68 ∷ 0x6c ∷ 0xc7 ∷ 0xc0 ∷ 0x06 ∷ 0x0c ∷ 0x53 ∷ 0x86 ∷ 0x2c ∷ 0x5c ∷ 0xe3 ∷ 0x8c ∷ []

-- A key in memory once it has been initialised from Ledger's key.
abbrev pub ledger_key : Platform → List ℕ
ledger_key p = (p.init_public_key secp256k1 ledger_pub_key).1

-- `memset` of the whole context, then Ledger's key. On a failure the state is not set again, but 0
-- is INITIAL_STATE. The result false is -1.
unfoldable pub init_application_context : Platform → Context → Context × Bool
unfolding zeroed
init_application_context p ctx =
    let fresh = record (zeroed p.key_size p.max_printable_amount_size) {
      ledger_public_key = ledger_key p;
    } in
    if (p.init_public_key secp256k1 ledger_pub_key).0
    then (record fresh { state = initial_state }, true)
    else (fresh, false)

-- The ten random capital letters of the legacy swap flow, from the `i`th drawn on.
unfoldable pub random_letters : (ℕ → ℕ) → ℕ → ℕ → List ℕ
random_letters rng_u8 i zero = []
random_letters rng_u8 i (suc n) = (65 + rng_u8 i % 26) ∷ random_letters rng_u8 (i + 1) n

abbrev pub transaction_id_size : Subcommand → ℕ
transaction_id_size subcommand = if subcommand_eq subcommand swap then 10 else 32

unfoldable pub new_transaction_id : Env → Subcommand → List ℕ
unfolding random_letters
new_transaction_id env subcommand =
    if subcommand_eq subcommand swap then random_letters env.rng_u8 0 10 else take 32 env.rng

start_new_transaction_steps : Platform → Env → Command → M (Unit {0})
unfolding init_application_context
start_new_transaction_steps p env cmd ctx =
    let (fresh, initialised) = init_application_context p ctx in
    (require initialised internal_error
        >> modify (λ c. record c {
          device_transaction_id =
              write_at c.device_transaction_id 0 (new_transaction_id env cmd.subcommand);
        }))
      fresh

-- The reset of the display in state WAITING_SIGNING is left to the main loop's model.
unfoldable pub start_new_transaction : Platform → Env → Command → Context → Outcome
unfolding start_new_transaction_steps conclude
start_new_transaction p env cmd ctx =
    conclude env (record { body = new_transaction_id env cmd.subcommand; status = success })
      (λ c. record c { state = waiting_transaction; subcommand = cmd.subcommand })
      (start_new_transaction_steps p env cmd ctx)

-- A handler that sends bytes and changes nothing.
answer : Env → List ℕ → Context → Outcome
answer env body ctx =
    let r : Response = record { body = body; status = success } in
    record { context = ctx; attempted = r ∷ []; prompts = false; end = returned (env.sends r) }

unfoldable pub get_version_handler : Platform → Env → Context → Outcome
unfolding answer
get_version_handler p env ctx = answer env p.version ctx

unfoldable pub get_challenge_handler : Platform → Env → ℕ → Context → Outcome
unfolding answer
get_challenge_handler p env challenge ctx = answer env (p.u4be_encode challenge) ctx
