-- ===== src/Addresses/Ownership.antt =====
-- What a step that has checked its addresses has asked: of Ledger's signature, of the ticker, and of
-- the coin application about the swap's own address.
use app_exchange.Addresses.{displays}
use app_exchange.Protocol.States.{all_addresses_checked}
use app_exchange.Handler.{enter}
use app_exchange.Protocol.States.{payout_address_checked}
use app_exchange.Protocol.States.{waiting_user_validation}
use app_exchange.Protocol.Errors.{success}
use app_exchange.Trust.Display.{steps_stay}
use app_exchange.Common.{◌≢◌}
use app_exchange.Handler.{status_only}
use app_exchange.Handler.{start_ui_display}
use app_exchange.Handler.{conclude}
use app_exchange.Trust.Display.{Stays}
use app_exchange.Protocol.States.{State}
use app_exchange.Handler.{conclude_display}
use app_exchange.Addresses.{check_addresses_and_amounts}
use mathlib.Core.Path.{subst}
use app_exchange.Common.{not}
use app_exchange.Protocol.Errors.{incorrect_command_data}
use app_exchange.Protocol.Commands.{Instruction}
use app_exchange.Protocol.Commands.{instruction_eq→eq}
use app_exchange.Handler.{from_option}
use app_exchange.LibCalls.{os_lib_call_bss_safe}
use app_exchange.Common.{
  ℕ, ◌≡◌, refl, sym, ap, ◌∙◌, true, false, ◌==◌, some, ◌⊎◌, inl, inr, arith, Bool-cases,
  if◌then◌else◌, get_or, c_string,
}
use app_exchange.Protocol.Commands.{Command, check_payout_address, instruction_eq, is_swap}
use app_exchange.CoinConfig.{CoinConfig, parse_coin_config}
use app_exchange.CheckAddressMessage.{CheckAddressMessage, parse_check_address_message}
use app_exchange.Context.{Context}
use app_exchange.Platform.{Platform, Env, CheckAddressCall, LibCall, not_installed, back}
use app_exchange.Handler.{Exit, value, refuse, thrown, after}
use app_exchange.Handler.Rules.{from_option-value, after-value, require-value}
use app_exchange.LibCalls.{LibResult, failed, output, check_address, accept_address, canary_value}
use app_exchange.Addresses.{
  check_coin_configuration_signature, check_received_ticker_matches_context, address_to_check,
  check_payout_or_refund_address, after_address_check, name_buffer, check_own_address,
  format_amounts, check_configured, check_message, check_addresses_steps,
}
use app_exchange.Addresses.Keeping.{KeptByWrites, format_amounts-keeps}
use app_exchange.Handler.Rules.{conclude-cases}

-- The question that is put to the coin application.
abbrev address_call :
    Platform → Command → Context → CheckAddressMessage → CoinConfig → CheckAddressCall
address_call p cmd ctx message config =
    let (address, extra_id) = address_to_check p cmd.ins ctx in
    record {
      application_name = c_string (name_buffer config.application_name);
      coin_configuration = config.sub_configuration;
      address_parameters = message.address_parameters;
      address_to_check = c_string address;
      extra_id_to_check = c_string extra_id;
    }

-- It has answered confirmed, with its stack and the memory of the exchange intact.
abbrev pub Confirms : LibCall ℕ → Type 0
Confirms not_installed = true ≡ false
Confirms (back bss_before bss_after canary result) =
    (bss_before ≡ bss_after) × (canary ≡ canary_value) × (result ≡ 1)

flag_kept : KeptByWrites (λ c. c.other_seed_payout ≡ true)
flag_kept = record {
  shown_get = λ text c h. h;
  shown_send = λ text c h. h;
  shown_fees = λ text c h. h;
  paying = λ name config size rate c h. h;
}

-- The address of a swap: the coin application knows it as its own, or it is a payout address and the
-- user will be warned.
abbrev pub IsOwned :
    Platform → Env → Command → Context → CheckAddressMessage → CoinConfig → Context → Type 0
IsOwned p env cmd ctx message config next =
    Confirms (env.check_address_app (address_call p cmd ctx message config))
    ⊎ ((cmd.ins ≡ check_payout_address) × (next.other_seed_payout ≡ true))

-- What a step has checked that ends in `next`.
pub record IsChecked (p : Platform) (env : Env) (cmd : Command) (ctx next : Context) : Type 0 where
  pub message : CheckAddressMessage
  pub config : CoinConfig
  pub is_message : parse_check_address_message p.u2be cmd.payload ≡ some message
  pub is_certified : check_coin_configuration_signature p message.config message.der ctx ≡ true
  pub is_config : parse_coin_config p.u2be message.config ≡ some config
  pub has_ticker : check_received_ticker_matches_context p config.ticker cmd ctx ≡ true
  pub is_owned : is_swap ctx.subcommand ≡ true → IsOwned p env cmd ctx message config next

module _ (p : Platform) (env : Env) (cmd : Command) (ctx : Context) where
  Confirms-call :
      (x : LibCall ℕ) (c : Context)
      → os_lib_call_bss_safe x accept_address ctx ≡ (value (output tt), c)
      → Confirms x
  unfolding accept_address
  Confirms-call not_installed c h = absurd (ground arith)
  Confirms-call (back before end canary result) c h = ground arith

  let_through :
      (ins : Instruction) (r : LibResult (Unit {0})) (c1 c : Context)
      → after_address_check ins r c1 ≡ (value tt, c)
      → (r ≡ output tt)
        ⊎ ((instruction_eq ins check_payout_address ≡ true) × (c.other_seed_payout ≡ true))
  unfolding after_address_check
  let_through ins (output tt) c1 c h = inl refl
  let_through ins (failed e) c1 c h = inr (ground arith)

  judged :
      (message : CheckAddressMessage) (config : CoinConfig) (r : LibResult (Unit {0}))
      (c1 c : Context)
      → check_payout_or_refund_address p env cmd.ins config.sub_configuration
          message.address_parameters
          (name_buffer config.application_name)
          ctx
        ≡ (value r, c1)
      → after_address_check cmd.ins r c1 ≡ (value tt, c)
      → IsOwned p env cmd ctx message config c
  unfolding check_payout_or_refund_address check_address
  judged message config r c1 c called went_on = elim (let_through cmd.ins r c1 c went_on) [
    | inr (payout, flagged) ↦ inr (instruction_eq→eq cmd.ins check_payout_address payout, flagged)
    | inl confirmed ↦
        let call = env.check_address_app (address_call p cmd ctx message config) in
        elim (Bool-cases (not (get_or (address_to_check p cmd.ins ctx).0 150 0 == 0))) [
          | inl e ↦ let open_end = rw (e, confirmed) at called in absurd (ground arith)
          | inr e ↦ let asked = rw (e, confirmed) at called in inl (Confirms-call call c1 asked)
        ]
  ]

  -- An address check that lets the step go on.
  IsOwned-after :
      (message : CheckAddressMessage) (config : CoinConfig) (c : Context)
      → is_swap ctx.subcommand ≡ true
      → check_own_address p env cmd config message.address_parameters ctx ≡ (value tt, c)
      → IsOwned p env cmd ctx message config c
  unfolding check_own_address
  IsOwned-after message config c swaps h =
      let h' = rw swaps at h in
      let (r, c1, called, went_on) =
        after-value
          (check_payout_or_refund_address p env cmd.ins config.sub_configuration
            message.address_parameters (name_buffer config.application_name) ctx)
          (after_address_check cmd.ins) h' in
      judged message config r c1 c called went_on

  steps-IsChecked :
      (next : Context)
      → check_addresses_steps p env cmd ctx ≡ (value tt, next)
      → IsChecked p env cmd ctx next
  unfolding check_addresses_steps check_message check_configured
  steps-IsChecked next h =
      let (message, is_message, h1) =
        from_option-value (parse_check_address_message p.u2be cmd.payload) _ ctx
          (check_message p env cmd) h in
      let (is_certified, h2) =
        require-value (check_coin_configuration_signature p message.config message.der ctx) _ ctx
          (λ _ c.
            after (from_option (parse_coin_config p.u2be message.config) incorrect_command_data c)
              (λ config. check_configured p env cmd config message.address_parameters))
          h1 in
      let (config, is_config, h3) =
        from_option-value (parse_coin_config p.u2be message.config) _ ctx
          (λ config. check_configured p env cmd config message.address_parameters) h2 in
      let (has_ticker, h4) =
        require-value (check_received_ticker_matches_context p config.ticker cmd ctx) _ ctx
          (λ _ c.
            after (check_own_address p env cmd config message.address_parameters c)
              (λ _. format_amounts p env cmd config))
          h3 in
      let (_, c1, own, h5) =
        after-value (check_own_address p env cmd config message.address_parameters ctx)
          (λ _. format_amounts p env cmd config) h4 in
      record {
        message = message;
        config = config;
        is_message = is_message;
        is_certified = is_certified;
        is_config = is_config;
        has_ticker = has_ticker;
        is_owned = λ swaps. elim (IsOwned-after message config c1 swaps own) [
          | inl confirmed ↦ inl confirmed
          | inr (payout, flagged) ↦ inr (
            payout,
            subst (λ (x : Exit (Unit {0}) × Context). x.1.other_seed_payout ≡ true) h5
                (format_amounts-keeps p env (λ c. c.other_seed_payout ≡ true) flag_kept cmd config
                  c1 flagged),
          )
        ];
      }

  entered :
      (s : State) (c : Context)
      → IsChecked p env cmd ctx c
      → IsChecked p env cmd ctx (record c { state = s })
  entered s c k = record {
    message = k.message;
    config = k.config;
    is_message = k.is_message;
    is_certified = k.is_certified;
    is_config = k.is_config;
    has_ticker = k.has_ticker;
    is_owned = k.is_owned;
  }

  displayed-IsChecked :
      (x : Exit (Unit {0}) × Context)
      → x ≡ check_addresses_steps p env cmd ctx
      → x.1.state ≡ ctx.state
      → (conclude_display env x).context.state ≢ ctx.state
      → IsChecked p env cmd ctx (conclude_display env x).context
  unfolding conclude_display start_ui_display
  displayed-IsChecked (value tt, c) e same moved =
      entered waiting_user_validation c (steps-IsChecked c (sym e))
  displayed-IsChecked (refuse r, c) e same moved = absurd (moved same)
  displayed-IsChecked (thrown, c) e same moved = absurd (moved same)

  concluded-IsChecked :
      (s : State)
      → (check_addresses_steps p env cmd ctx).1.state ≡ ctx.state
      → let o =
          conclude env (status_only success) (enter s) (check_addresses_steps p env cmd ctx) in
        o.context.state ≢ ctx.state → IsChecked p env cmd ctx o.context
  concluded-IsChecked s same moved =
      let x = check_addresses_steps p env cmd ctx in
      elim (conclude-cases env (status_only success) (enter s) x) [
        | inl e ↦ absurd (moved (ap (λ (c : Context). c.state) e ∙ same))
        | inr (ok, e) ↦
            subst (IsChecked p env cmd ctx) (sym e) (entered s x.1 (steps-IsChecked x.1 ok))
      ]

  -- A check of addresses and amounts that changes the state has found a coin configuration that Ledger's
  -- key has signed, for the currency of the transaction. In a swap, the coin application has confirmed
  -- the address, with the memory of the exchange intact; or it is the payout address, and the flag is
  -- set that makes the review warn of it.
  pub check_addresses_and_amounts-IsChecked :
      (check_addresses_and_amounts p env cmd ctx).context.state ≢ ctx.state
      → IsChecked p env cmd ctx (check_addresses_and_amounts p env cmd ctx).context
  unfolding check_addresses_and_amounts Stays
  check_addresses_and_amounts-IsChecked moved =
      let (same, _) = steps_stay p env ctx cmd in
      let target =
        if instruction_eq cmd.ins check_payout_address
        then payout_address_checked
        else all_addresses_checked in
      elim (Bool-cases (displays cmd.ins)) [
        | inl e ↦
            rw e
              (displayed-IsChecked (check_addresses_steps p env cmd ctx) refl same (rw e at moved))
        | inr e ↦ rw e (concluded-IsChecked target same (rw e at moved))
      ]
