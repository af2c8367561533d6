-- ===== src/Trust/Display.antt =====
-- The steps from the check of the signature to the review keep the context trusted.
use app_exchange.Addresses.Keeping.{KeptByWrites, format_amounts-keeps}
use app_exchange.Common.{ℕ, ◌≤◌, ◌≡◌, refl, List, inl, inr, arith, Bool-cases}
use app_exchange.Protocol.States.{state_value}
use app_exchange.Protocol.Commands.{Command, Instruction, is_swap}
use app_exchange.Protocol.Errors.{incorrect_command_data, sign_verification_fail}
use app_exchange.CoinConfig.{parse_coin_config}
use app_exchange.CoinConfig.{CoinConfig}
use app_exchange.CheckAddressMessage.{CheckAddressMessage, parse_check_address_message}
use app_exchange.Context.{Context}
use app_exchange.Platform.{Platform, Env}
use app_exchange.Handler.{M, after, require, from_option}
use app_exchange.Handler.Rules.{after-keeps, from_option-keeps, require-keeps}
use app_exchange.LibCalls.{LibResult, check_address}
use app_exchange.Addresses.{
  check_payout_or_refund_address, after_address_check, format_amounts, check_own_address,
  check_configured, check_message, check_addresses_steps, name_buffer,
  check_received_ticker_matches_context, check_coin_configuration_signature,
  check_addresses_and_amounts,
}
use app_exchange.Trust.{IsTrusted}
use app_exchange.Trust.Frame.{Kept, Kept-refl, Kept-IsTrusted}

unfoldable pub Stays : Context → Context → Type 0
Stays ctx c = (c.state ≡ ctx.state) × Kept ctx c

module _ (p : Platform) (env : Env) (ctx : Context) where
  address-Stays :
      (ins : Instruction) (config parameters name : List ℕ) (c : Context)
      → Stays ctx c
      → Stays ctx (check_payout_or_refund_address p env ins config parameters name c).1
  unfolding check_payout_or_refund_address check_address Stays
  address-Stays ins config parameters name c h = ground arith

  after_address-Stays :
      (ins : Instruction) (r : LibResult (Unit {0})) (c : Context)
      → Stays ctx c
      → Stays ctx (after_address_check ins r c).1
  unfolding after_address_check Stays
  after_address-Stays ins r c h = ground arith

  writes_stay : KeptByWrites (Stays ctx)
  unfolding Stays
  writes_stay = record {
    shown_get = λ text c h. ground arith;
    shown_send = λ text c h. ground arith;
    shown_fees = λ text c h. ground arith;
    paying = λ name config size rate c h. ground arith;
  }

  amounts_stay :
      (cmd : Command) (config : CoinConfig) (c : Context)
      → Stays ctx c
      → Stays ctx (format_amounts p env cmd config c).1
  amounts_stay = format_amounts-keeps p env (Stays ctx) writes_stay

  own_address-Stays :
      (cmd : Command) (config : CoinConfig) (parameters : List ℕ) (c : Context)
      → Stays ctx c
      → Stays ctx (check_own_address p env cmd config parameters c).1
  unfolding check_own_address
  own_address-Stays cmd config parameters c h = elim (Bool-cases (is_swap c.subcommand)) [
    | inl e ↦ rw e (
        after-keeps (Stays ctx)
          (check_payout_or_refund_address p env cmd.ins config.sub_configuration parameters
            (name_buffer config.application_name) c)
          (after_address_check cmd.ins)
          (address-Stays cmd.ins config.sub_configuration parameters
            (name_buffer config.application_name) c h)
          (λ r. after_address-Stays cmd.ins r))
    | inr e ↦ rw e h
  ]

  configured_stay :
      (cmd : Command) (config : CoinConfig) (parameters : List ℕ) (c : Context)
      → Stays ctx c
      → Stays ctx (check_configured p env cmd config parameters c).1
  unfolding check_configured
  configured_stay cmd config parameters c h =
      let matches = check_received_ticker_matches_context p config.ticker cmd c in
      let own : M (Unit {0}) = check_own_address p env cmd config parameters in
      let amounts : M (Unit {0}) = format_amounts p env cmd config in
      after-keeps (Stays ctx) (require matches incorrect_command_data c)
        (λ _ c1. after (own c1) (λ _. amounts))
        (require-keeps (Stays ctx) matches incorrect_command_data c h)
        (λ _ c1 h1.
          after-keeps (Stays ctx) (own c1) (λ _. amounts)
            (own_address-Stays cmd config parameters c1 h1)
            (λ _ c2 h2. amounts_stay cmd config c2 h2))

  message-Stays :
      (cmd : Command) (message : CheckAddressMessage) (c : Context)
      → Stays ctx c
      → Stays ctx (check_message p env cmd message c).1
  unfolding check_message
  message-Stays cmd message c h =
      let verified = check_coin_configuration_signature p message.config message.der c in
      let parsed = parse_coin_config p.u2be message.config in
      let rest : CoinConfig → M (Unit {0}) =
        λ config. check_configured p env cmd config message.address_parameters in
      after-keeps (Stays ctx) (require verified sign_verification_fail c)
        (λ _ c1. after (from_option parsed incorrect_command_data c1) rest)
        (require-keeps (Stays ctx) verified sign_verification_fail c h)
        (λ _ c1 h1.
          after-keeps (Stays ctx) (from_option parsed incorrect_command_data c1) rest
            (from_option-keeps (Stays ctx) parsed incorrect_command_data c1 h1)
            (λ config c2 h2. configured_stay cmd config message.address_parameters c2 h2))

  nothing_changed : Stays ctx ctx
  unfolding Stays
  nothing_changed = (refl, Kept-refl ctx)

  pub steps_stay : (cmd : Command) → Stays ctx (check_addresses_steps p env cmd ctx).1
  unfolding check_addresses_steps
  steps_stay cmd =
      let parsed = parse_check_address_message p.u2be cmd.payload in
      after-keeps (Stays ctx) (from_option parsed incorrect_command_data ctx)
        (check_message p env cmd)
        (from_option-keeps (Stays ctx) parsed incorrect_command_data ctx nothing_changed)
        (λ message c h. message-Stays cmd message c h)

  -- A check of the addresses and amounts keeps the chain from Ledger's key to the partner's signed
  -- transaction, from state SIGNATURE_CHECKED on.
  pub check_addresses_and_amounts-IsTrusted :
      (cmd : Command)
      → 5 ≤ state_value ctx.state
      → IsTrusted p ctx
      → IsTrusted p (check_addresses_and_amounts p env cmd ctx).context
  unfolding check_addresses_and_amounts Stays
  check_addresses_and_amounts-IsTrusted cmd st t =
      let (same, kept) = steps_stay cmd in Kept-IsTrusted p ctx _ st (ground arith) (ground arith) t
