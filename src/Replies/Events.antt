-- ===== src/Replies/Events.antt =====
-- The balance of replies over one event and over a run.
use app_exchange.Common.{ℕ}
use app_exchange.Replies.{second_reply}
use app_exchange.Replies.Handlers.{check_addresses-IsAnswered}
use app_exchange.Addresses.{check_addresses_and_amounts}
use app_exchange.Replies.Handlers.{start_ui_display-IsAnswered}
use app_exchange.Handler.{start_ui_display}
use app_exchange.Replies.Handlers.{get_challenge-IsAnswered}
use app_exchange.Session.{get_challenge_handler}
use app_exchange.Replies.Handlers.{check_tx_signature-IsAnswered}
use app_exchange.Signature.{check_tx_signature}
use app_exchange.Replies.Handlers.{process_transaction-IsAnswered}
use app_exchange.Process.{process_transaction}
use app_exchange.Replies.Handlers.{check_partner-IsAnswered}
use app_exchange.Partner.{check_partner}
use app_exchange.Replies.Handlers.{set_partner_key-IsAnswered}
use app_exchange.Partner.{set_partner_key}
use app_exchange.Replies.Handlers.{get_version-IsAnswered}
use app_exchange.Session.{get_version_handler}
use app_exchange.Replies.Handlers.{trusted_name-IsAnswered}
use app_exchange.TrustedNames.{trusted_name_descriptor_handler}
use app_exchange.Replies.Handlers.{start_new_transaction-IsAnswered}
use app_exchange.Session.{start_new_transaction}
use app_exchange.Protocol.States.{state_eq}
use app_exchange.Application.{dispatch_trusted_name}
use app_exchange.Application.{dispatch_start}
use app_exchange.Application.{dispatch_signing}
use app_exchange.Application.{dispatch_by}
use app_exchange.Application.Cycle.{abandon}
use app_exchange.Application.Cycle.{new_cycle}
use app_exchange.Application.Cycle.{exception_actions}
use app_exchange.Display.{ui_validate_amounts}
use app_exchange.Application.Cycle.{restart}
use app_exchange.Application.Cycle.{after_dispatch}
use app_exchange.Application.{after_handler}
use app_exchange.Common.{
  ◌+◌, ◌≡◌, ◌≢◌, refl, true, false, List, [], ◌∷◌, ◌++◌, length, map, inl, inr, arith, Bool-cases,
  if◌then◌else◌,
}
use app_exchange.Protocol.Commands.{
  Instruction, get_version_command, start_new_transaction_command, set_partner_key_command,
  check_partner_command, process_transaction_response_command, check_transaction_signature_command,
  get_challenge, send_trusted_name_descriptor, check_payout_address, check_asset_in_and_display,
  check_asset_in_no_display, check_refund_address_and_display, check_refund_address_no_display,
  prompt_ui_display, start_signing_transaction as start_signing_command, unknown, Command,
}
use app_exchange.Context.{Context}
use app_exchange.Platform.{Platform, Env, Response}
use app_exchange.Handler.{Outcome, End, returned, exception, trap}
use app_exchange.Display.{menu}
use app_exchange.Application.{App, Action, Dispatched, attempted, asked_to_sign}
use app_exchange.Trust.Screens.{asks}
use app_exchange.Protocol.States.{waiting_signing}
use app_exchange.Signing.{start_signing_transaction}
use app_exchange.Replies.{reply_count, owed, answered_above, IsAnswered}

reply_count-append : (a b : List Action) → reply_count (a ++ b) ≡ reply_count a + reply_count b
unfolding reply_count
reply_count-append [] b = omega arith
reply_count-append (attempted r ∷ a) b = omega (arith, reply_count-append a b)
reply_count-append (asked_to_sign call ∷ a) b = reply_count-append a b

reply_count-replies : (rs : List Response) → reply_count (map attempted rs) ≡ length rs
unfolding reply_count
reply_count-replies [] = refl
reply_count-replies (r ∷ rs) = omega (arith, reply_count-replies rs)

reply_count-exception : (e : End) → reply_count (exception_actions e) ≡ answered_above e
unfolding reply_count
reply_count-exception (returned b) = refl
reply_count-exception exception = omega arith
reply_count-exception trap = refl

-- The replies of a command, and what the screen owes after it, are one, and `extra` more.
unfoldable pub IsSettled : Platform → Env → ℕ → Dispatched → Type 0
IsSettled p env extra d =
    (reply_count (d.actions ++ exception_actions d.end)
        + owed (after_dispatch p env d.app d.end).screen
      ≡ 1 + extra)
    × (d.end ≢ trap)

opened-asks : (p : Platform) (ctx : Context) → asks (ui_validate_amounts p ctx) ≡ true
unfolding ui_validate_amounts
opened-asks p ctx = ground arith

restart-asks : (env : Env) (app : App) → asks (restart env app).screen ≡ false
unfolding restart
restart-asks env app = ground arith

module _ (p : Platform) (env : Env) where
  -- A silent screen stays silent, whichever way the loop goes on.
  silent_after :
      (d : App) (e : End) → asks d.screen ≡ false → asks (after_dispatch p env d e).screen ≡ false
  unfolding after_dispatch new_cycle abandon restart
  silent_after d e q = ground arith

  handled-IsSettled :
      (app : App) (o : Outcome)
      → asks app.screen ≡ false
      → IsAnswered o
      → IsSettled p env 0 (after_handler p app o)
  unfolding IsSettled after_handler
  handled-IsSettled app o q a =
      let d = after_handler p app o in
      let count = reply_count-append d.actions (exception_actions d.end) in
      let replies = reply_count-replies o.attempted in
      let above = reply_count-exception o.end in
      elim (Bool-cases o.prompts) [
        | inr e ↦
            let quiet : asks d.app.screen ≡ false = rw e q in
            let still = silent_after d.app d.end quiet in
            let one = a.one in (ground arith, a.no_trap)
        | inl e ↦
            let (ends, waits) = a.waits e in
            let one = a.one in
            let opened = opened-asks p o.context in
            (unfold after_dispatch in (ground arith), a.no_trap)
      ]

  -- A coin application that is missing is noticed after the reply to START_SIGNING_TRANSACTION.
  signing-IsSettled :
      (cmd : Command) (app : App)
      → asks app.screen ≡ false
      → IsSettled p env
          (second_reply p env cmd app.context start_signing_command)
          (dispatch_signing p env cmd app)
  unfolding IsSettled dispatch_signing start_signing_transaction reply_count after_dispatch
      new_cycle abandon restart
  signing-IsSettled cmd app q = ground arith

  pub by_instruction-IsSettled :
      (cmd : Command) (app : App) (i : Instruction)
      → i ≢ unknown
      → asks app.screen ≡ false
      → IsSettled p env (second_reply p env cmd app.context i) (dispatch_by p env cmd app i)
  unfolding dispatch_by dispatch_start dispatch_trusted_name
  by_instruction-IsSettled cmd app unknown known q = absurd (known refl)
  by_instruction-IsSettled cmd app start_signing_command known q = signing-IsSettled cmd app q
  by_instruction-IsSettled cmd app start_new_transaction_command known q =
      let shown = record app {
        screen = if state_eq app.context.state waiting_signing then menu else app.screen;
      } in
      handled-IsSettled shown (start_new_transaction p env cmd app.context) (ground arith)
        (start_new_transaction-IsAnswered p env cmd app.context)
  by_instruction-IsSettled cmd app send_trusted_name_descriptor known q =
      handled-IsSettled (record app { challenge = env.rng_u32 })
        (trusted_name_descriptor_handler p env app.challenge cmd app.context) q
        (trusted_name-IsAnswered p env cmd app.context app.challenge)
  by_instruction-IsSettled cmd app get_version_command known q =
      handled-IsSettled app (get_version_handler p env app.context) q
        (get_version-IsAnswered p env cmd app.context)
  by_instruction-IsSettled cmd app set_partner_key_command known q =
      handled-IsSettled app (set_partner_key p env cmd app.context) q
        (set_partner_key-IsAnswered p env cmd app.context)
  by_instruction-IsSettled cmd app check_partner_command known q =
      handled-IsSettled app (check_partner p env cmd app.context) q
        (check_partner-IsAnswered p env cmd app.context)
  by_instruction-IsSettled cmd app process_transaction_response_command known q =
      handled-IsSettled app (process_transaction p env cmd app.context) q
        (process_transaction-IsAnswered p env cmd app.context)
  by_instruction-IsSettled cmd app check_transaction_signature_command known q =
      handled-IsSettled app (check_tx_signature p env cmd app.context) q
        (check_tx_signature-IsAnswered p env cmd app.context)
  by_instruction-IsSettled cmd app get_challenge known q =
      handled-IsSettled app (get_challenge_handler p env app.challenge app.context) q
        (get_challenge-IsAnswered p env cmd app.context app.challenge)
  by_instruction-IsSettled cmd app prompt_ui_display known q =
      handled-IsSettled app (start_ui_display app.context) q
        (start_ui_display-IsAnswered app.context)
  by_instruction-IsSettled cmd app check_payout_address known q =
      handled-IsSettled app (check_addresses_and_amounts p env cmd app.context) q
        (check_addresses-IsAnswered p env cmd app.context)
  by_instruction-IsSettled cmd app check_asset_in_and_display known q =
      handled-IsSettled app (check_addresses_and_amounts p env cmd app.context) q
        (check_addresses-IsAnswered p env cmd app.context)
  by_instruction-IsSettled cmd app check_asset_in_no_display known q =
      handled-IsSettled app (check_addresses_and_amounts p env cmd app.context) q
        (check_addresses-IsAnswered p env cmd app.context)
  by_instruction-IsSettled cmd app check_refund_address_and_display known q =
      handled-IsSettled app (check_addresses_and_amounts p env cmd app.context) q
        (check_addresses-IsAnswered p env cmd app.context)
  by_instruction-IsSettled cmd app check_refund_address_no_display known q =
      handled-IsSettled app (check_addresses_and_amounts p env cmd app.context) q
        (check_addresses-IsAnswered p env cmd app.context)
