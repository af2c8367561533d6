-- ===== src/Application/Cycle.antt =====
-- The loops of src/main.c and the callbacks of src/ui/validate_transaction_nbgl.c.
use app_exchange.Common.{ℕ, Bool, true, false, not, ◌&&◌, if◌then◌else◌, List, [], ◌∷◌, ◌++◌}
use app_exchange.Protocol.States.{initial_state, waiting_signing, sign_finished, state_eq}
use app_exchange.Protocol.Errors.{
  success, application_not_installed, user_refused_transaction, user_refused_cross_seed, SwapError,
}
use app_exchange.Context.{Context, zeroed}
use app_exchange.Platform.{Platform, Env}
use app_exchange.ApduParser.Reception.{no_apdu, Verdict, reply, proceed, check_apdu_validity}
use app_exchange.Handler.{End, returned, exception, trap, status_only}
use app_exchange.Signing.{refusal_text}
use app_exchange.Display.{
  Screen, Review, menu, warning, review, signing_spinner, rejected, signed, failed,
}
use app_exchange.Application.{
  App, Action, attempted, Event, apdu, choice, reception_failed, io_reset, dispatch_command,
}

abbrev pub zero_context : Platform → Context
zero_context p = zeroed p.key_size p.max_printable_amount_size

-- A turn of the loop in `main`, up to the waiting for an APDU: the status of the previous cycle or
-- the menu, and a new challenge.
unfoldable pub restart : Env → App → App
restart env app = record app {
  challenge = env.rng_u32;
  screen =
      if app.cycle.had_previous_cycle
      then (if app.cycle.was_successful
          then signed
          else failed (refusal_text app.cycle.appname_last_cycle))
      else menu;
  cycle = record app.cycle { had_previous_cycle = false };
}

-- `app_main` has returned after a signature: the BSS is zeroed, but for the previous cycle's data.
unfoldable pub new_cycle : Platform → Env → App → App
unfolding restart
new_cycle p env app = restart env (record app {
  context = zero_context p;
  received = no_apdu;
  cycle = record app.cycle { had_previous_cycle = true };
})

-- `explicit_bzero(&G_swap_ctx, …); return;`
unfoldable pub abandon : Platform → Env → App → App
unfolding restart
abandon p env app = restart env (record app { context = zero_context p })

unfoldable pub after_dispatch : Platform → Env → App → End → App
after_dispatch p env app (returned true) =
    if state_eq app.context.state sign_finished then new_cycle p env app else app
after_dispatch p env app (returned false) = abandon p env app
after_dispatch p env app exception = restart env app
after_dispatch p env app trap = app

abbrev pub exception_actions : End → List Action
exception_actions exception = attempted (status_only application_not_installed) ∷ []
exception_actions _ = []

unfoldable pub run_verdict : Platform → Env → App → Verdict → App × List Action
run_verdict p env app (reply e) = (app, attempted (status_only e) ∷ [])
run_verdict p env app (proceed cmd) =
    let d = dispatch_command p env cmd app in
    (after_dispatch p env d.app d.end, d.actions ++ exception_actions d.end)

unfoldable pub receive_apdu : Platform → Env → App → List ℕ → App × List Action
unfolding run_verdict
receive_apdu p env app bytes =
    let r = check_apdu_validity p.layout app.context app.received bytes in
    run_verdict p env (record app { context = r.context; received = r.received }) r.verdict

unfoldable pub handle_refusal : App → SwapError → App × List Action
handle_refusal app e = (
  record app { screen = rejected; context = record app.context { state = initial_state } },
  attempted (status_only e) ∷ [],
)

-- `review_choice`
unfoldable pub review_choice : Platform → App → Bool → App × List Action
unfolding handle_refusal
review_choice p app true = (
  record app { screen = signing_spinner; context = record app.context { state = waiting_signing } },
  attempted (status_only success) ∷ [],
)
review_choice p app false = handle_refusal app (
    if not p.screen_size_wallet && app.context.other_seed_payout
    then user_refused_cross_seed
    else user_refused_transaction)

-- `on_warning_choice`
unfoldable pub on_warning_choice : App → Review → Bool → App × List Action
unfolding handle_refusal
on_warning_choice app r true = (record app { screen = review r }, [])
on_warning_choice app r false = handle_refusal app user_refused_cross_seed

-- A choice is made on the screen that asks for it; other screens call none of these callbacks.
unfoldable pub choose : Platform → App → Screen → Bool → App × List Action
unfolding review_choice on_warning_choice
choose p app (warning r) confirm = on_warning_choice app r confirm
choose p app (review r) confirm = review_choice p app confirm
choose p app _ confirm = (app, [])

unfoldable pub step : Platform → App → Event → App × List Action
unfolding choose
step p app (apdu env bytes) = receive_apdu p env app bytes
step p app (choice env confirm) = choose p app app.screen confirm
step p app (reception_failed env) = (abandon p env app, [])
step p app (io_reset env) = (restart env app, [])

-- The application after its first start.
abbrev pub first_start : Platform → App
first_start p = record {
  context = zero_context p;
  received = no_apdu;
  challenge = 0;
  screen = menu;
  cycle = record { had_previous_cycle = false; was_successful = false; appname_last_cycle = [] };
}

unfoldable pub boot : Platform → Env → App
boot p env = restart env (first_start p)

unfoldable pub run : Platform → App → List Event → App
run p app [] = app
run p app (e ∷ es) = run p (step p app e).0 es
