-- ===== src/Trust/Screens.antt =====
-- A review is on the screen only in the state that waits for the user's choice.
use app_exchange.Common.{
  ℕ, ◌≡◌, refl, Bool, true, false, inl, inr, arith, Bool-cases, if◌then◌else◌,
}
use app_exchange.Protocol.States.{waiting_user_validation, waiting_signing, state_eq}
use app_exchange.Protocol.Commands.{
  Instruction, get_version_command, start_new_transaction_command, set_partner_key_command,
  check_partner_command, process_transaction_response_command, check_transaction_signature_command,
  get_challenge, send_trusted_name_descriptor, check_payout_address, check_asset_in_and_display,
  check_asset_in_no_display, check_refund_address_and_display, check_refund_address_no_display,
  prompt_ui_display, start_signing_transaction as start_signing_command, unknown, Command,
}
use app_exchange.Context.{Context}
use app_exchange.Platform.{Platform, Env, Response}
use app_exchange.Handler.{
  Exit, value, refuse, thrown, Outcome, start_ui_display, conclude, conclude_display,
}
use app_exchange.Session.{start_new_transaction, get_version_handler, get_challenge_handler}
use app_exchange.Partner.{set_partner_key, check_partner}
use app_exchange.Process.{process_transaction}
use app_exchange.Signature.{check_tx_signature}
use app_exchange.TrustedNames.{trusted_name_descriptor_handler}
use app_exchange.Addresses.{check_addresses_and_amounts, displays}
use app_exchange.Display.{Screen, menu, warning, review}
use app_exchange.Application.{
  App, dispatch_by, dispatch_start, dispatch_trusted_name, dispatch_signing, after_handler,
}

abbrev pub asks : Screen → Bool
asks (warning r) = true
asks (review r) = true
asks _ = false

-- A handler that asks the user moves to the state that waits for the choice.
abbrev IsPaired : Outcome → Type 0
IsPaired o = o.prompts ≡ true → o.context.state ≡ waiting_user_validation

conclude-IsPaired :
    (env : Env) (r : Response) (next : Context → Context) (x : Exit (Unit {0}) × Context)
    → IsPaired (conclude env r next x)
unfolding conclude
conclude-IsPaired env r next (value tt, c) = ground arith
conclude-IsPaired env r next (refuse e, c) = ground arith
conclude-IsPaired env r next (thrown, c) = ground arith

conclude_display-IsPaired :
    (env : Env) (x : Exit (Unit {0}) × Context) → IsPaired (conclude_display env x)
unfolding conclude_display start_ui_display
conclude_display-IsPaired env (value tt, c) = ground arith
conclude_display-IsPaired env (refuse e, c) = ground arith
conclude_display-IsPaired env (thrown, c) = ground arith

abbrev Silent : App → Type 0
Silent app = asks app.screen ≡ false

abbrev pub IsShown : App → Type 0
IsShown app = asks app.screen ≡ true → app.context.state ≡ waiting_user_validation

after_handler-IsShown :
    (p : Platform) (app : App) (o : Outcome)
    → Silent app
    → IsPaired o
    → IsShown (after_handler p app o).app
unfolding after_handler
after_handler-IsShown p app o quiet paired h = elim (Bool-cases o.prompts) [
  | inl e ↦ paired e
  | inr e ↦ absurd (ground arith)
]

check_addresses-IsPaired :
    (p : Platform) (env : Env) (cmd : Command) (ctx : Context)
    → IsPaired (check_addresses_and_amounts p env cmd ctx)
unfolding check_addresses_and_amounts
check_addresses-IsPaired p env cmd ctx = elim (Bool-cases (displays cmd.ins)) [
  | inl e ↦ rw e (conclude_display-IsPaired env _)
  | inr e ↦ rw e (conclude-IsPaired env _ _ _)
]

module _ (p : Platform) (env : Env) (cmd : Command) where
  handled :
      (app : App) (o : Outcome) → Silent app → IsPaired o → IsShown (after_handler p app o).app
  handled = after_handler-IsShown p

  start-IsShown : (app : App) → Silent app → IsShown (dispatch_start p env cmd app).app
  unfolding dispatch_start start_new_transaction
  start-IsShown app quiet =
      let shown = record app {
        screen = if state_eq app.context.state waiting_signing then menu else app.screen;
      } in
      handled shown (start_new_transaction p env cmd app.context) (ground arith)
        (conclude-IsPaired env _ _ _)

  set_partner_key-IsPaired : (ctx : Context) → IsPaired (set_partner_key p env cmd ctx)
  unfolding set_partner_key
  set_partner_key-IsPaired ctx = conclude-IsPaired env _ _ _

  check_partner-IsPaired : (ctx : Context) → IsPaired (check_partner p env cmd ctx)
  unfolding check_partner
  check_partner-IsPaired ctx = conclude-IsPaired env _ _ _

  process_transaction-IsPaired : (ctx : Context) → IsPaired (process_transaction p env cmd ctx)
  unfolding process_transaction
  process_transaction-IsPaired ctx = conclude-IsPaired env _ _ _

  check_tx_signature-IsPaired : (ctx : Context) → IsPaired (check_tx_signature p env cmd ctx)
  unfolding check_tx_signature
  check_tx_signature-IsPaired ctx = conclude-IsPaired env _ _ _

  trusted_name-IsPaired :
      (challenge : ℕ) (ctx : Context)
      → IsPaired (trusted_name_descriptor_handler p env challenge cmd ctx)
  unfolding trusted_name_descriptor_handler
  trusted_name-IsPaired challenge ctx = conclude-IsPaired env _ _ _

  pub by_instruction-IsShown :
      (app : App) (i : Instruction) → Silent app → IsShown (dispatch_by p env cmd app i).app
  unfolding dispatch_by dispatch_trusted_name dispatch_signing get_version_handler
      get_challenge_handler start_ui_display
  by_instruction-IsShown app get_version_command q =
      handled app (get_version_handler p env app.context) q (ground arith)
  by_instruction-IsShown app start_new_transaction_command q = start-IsShown app q
  by_instruction-IsShown app set_partner_key_command q =
      handled app (set_partner_key p env cmd app.context) q (set_partner_key-IsPaired app.context)
  by_instruction-IsShown app check_partner_command q =
      handled app (check_partner p env cmd app.context) q (check_partner-IsPaired app.context)
  by_instruction-IsShown app process_transaction_response_command q =
      handled app (process_transaction p env cmd app.context) q
        (process_transaction-IsPaired app.context)
  by_instruction-IsShown app check_transaction_signature_command q =
      handled app (check_tx_signature p env cmd app.context) q
        (check_tx_signature-IsPaired app.context)
  by_instruction-IsShown app get_challenge q =
      handled app (get_challenge_handler p env app.challenge app.context) q (ground arith)
  by_instruction-IsShown app send_trusted_name_descriptor q =
      handled (record app { challenge = env.rng_u32 })
        (trusted_name_descriptor_handler p env app.challenge cmd app.context) q
        (trusted_name-IsPaired app.challenge app.context)
  by_instruction-IsShown app prompt_ui_display q =
      handled app (start_ui_display app.context) q (λ _. refl)
  by_instruction-IsShown app start_signing_command q = λ h. absurd (ground arith)
  by_instruction-IsShown app unknown q = λ h. absurd (ground arith)
  by_instruction-IsShown app check_payout_address q =
      handled app (check_addresses_and_amounts p env cmd app.context) q
        (check_addresses-IsPaired p env cmd app.context)
  by_instruction-IsShown app check_asset_in_and_display q =
      handled app (check_addresses_and_amounts p env cmd app.context) q
        (check_addresses-IsPaired p env cmd app.context)
  by_instruction-IsShown app check_asset_in_no_display q =
      handled app (check_addresses_and_amounts p env cmd app.context) q
        (check_addresses-IsPaired p env cmd app.context)
  by_instruction-IsShown app check_refund_address_and_display q =
      handled app (check_addresses_and_amounts p env cmd app.context) q
        (check_addresses-IsPaired p env cmd app.context)
  by_instruction-IsShown app check_refund_address_no_display q =
      handled app (check_addresses_and_amounts p env cmd app.context) q
        (check_addresses-IsPaired p env cmd app.context)
