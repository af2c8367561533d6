-- ===== src/Replies/Balance.antt =====
-- The balance of replies over an event and over a run of the application.
use app_exchange.Replies.{second_reply}
use app_exchange.ApduParser.Reception.{reply, proceed}
use app_exchange.Application.Cycle.{zero_context}
use app_exchange.Application.Cycle.{abandon}
use app_exchange.Replies.Events.{by_instruction-IsSettled}
use app_exchange.Replies.Events.{IsSettled}
use app_exchange.Trust.Run.{quiet}
use app_exchange.ApduParser.Frame.{check_apdu_validity-guards}
use app_exchange.Trust.Run.{verdict_cases}
use app_exchange.Trust.Screens.{IsShown}
use app_exchange.Application.Cycle.{handle_refusal}
use app_exchange.Trust.Dispatch.{allowed_state}
use app_exchange.Application.{dispatch_command}
use app_exchange.Application.Cycle.{on_warning_choice}
use app_exchange.Trust.Run.{step-IsSound}
use app_exchange.Trust.Run.{boot-IsSound}
use app_exchange.Trust.Dispatch.{AllowsIn}
use app_exchange.Application.Cycle.{run_verdict}
use app_exchange.Application.Cycle.{review_choice}
use app_exchange.Application.Cycle.{restart}
use app_exchange.Common.{none}
use app_exchange.Application.Cycle.{receive_apdu}
use app_exchange.Application.Cycle.{choose}
use app_exchange.Application.Cycle.{step}
use app_exchange.Application.Cycle.{run}
use app_exchange.Application.Cycle.{boot}
use app_exchange.Common.{
  ℕ, ◌+◌, ◌≡◌, ◌≢◌, refl, sym, ◌∙◌, Bool, true, false, List, [], ◌∷◌, inl, inr, arith,
}
use app_exchange.Protocol.Commands.{Command, unknown}
use app_exchange.Context.{Context}
use app_exchange.Platform.{Platform, Env}
use app_exchange.ApduParser.{check_instruction}
use app_exchange.ApduParser.Reception.{Verdict, check_apdu_validity}
use app_exchange.Display.{Screen, menu, warning, review, signing_spinner, rejected, signed, failed}
use app_exchange.Application.{App, Event, apdu, choice, reception_failed, io_reset}
use app_exchange.Trust.Run.{IsSound}
use app_exchange.Replies.{reply_count, owed}
use mathlib.Core.Path.{subst}

-- The host asks for a reply by each APDU.
abbrev pub requests : Event → ℕ
requests (apdu env bytes) = 1
requests (choice env confirm) = 0
requests (reception_failed env) = 0
requests (io_reset env) = 0

-- The review that a failure of the connection takes off the screen stays without an answer.
abbrev pub dropped : App → Event → ℕ
dropped app (apdu env bytes) = 0
dropped app (choice env confirm) = 0
dropped app (reception_failed env) = owed app.screen
dropped app (io_reset env) = owed app.screen

abbrev pub verdict_doubled : Platform → Env → Context → Verdict → ℕ
verdict_doubled p env ctx (reply e) = 0
verdict_doubled p env ctx (proceed cmd) = second_reply p env cmd ctx cmd.ins

-- The second reply to an APDU, which only a missing coin application causes.
abbrev pub doubled : Platform → App → Event → ℕ
doubled p app (apdu env bytes) =
    let r = check_apdu_validity p.layout app.context app.received bytes in
    verdict_doubled p env r.context r.verdict
doubled p app (choice env confirm) = 0
doubled p app (reception_failed env) = 0
doubled p app (io_reset env) = 0

known_instruction :
    (ctx : Context) (cmd : Command)
    → check_instruction ctx cmd.ins cmd.subcommand ≡ none
    → cmd.ins ≢ unknown
known_instruction ctx cmd ok e =
    (subst (AllowsIn ctx.state) e (allowed_state ctx cmd.ins cmd.subcommand ok).0) refl

receive-balance :
    (p : Platform) (env : Env) (app : App) (bytes : List ℕ)
    → IsShown app
    → let (next, actions) = receive_apdu p env app bytes in
      reply_count actions + owed next.screen ≡ 1 + owed app.screen + doubled p app (apdu env bytes)
unfolding receive_apdu run_verdict reply_count dispatch_command IsSettled
receive-balance p env app bytes shown =
    let ctx = app.context in
    let r = check_apdu_validity p.layout ctx app.received bytes in
    let next : App = record app { context = r.context; received = r.received } in
    let goal = λ (v : Verdict).
      reply_count (run_verdict p env next v).1 + owed (run_verdict p env next v).0.screen
      ≡ 1 + owed app.screen + verdict_doubled p env r.context v in
    elim (verdict_cases r.verdict) [
      | inl (e, refused) ↦ subst goal (sym refused) (omega arith)
      | inr (cmd, ok) ↦
          let guards = check_apdu_validity-guards p.layout ctx app.received bytes cmd ok in
          let (_, idle) = allowed_state ctx cmd.ins cmd.subcommand guards in
          let q = quiet p env app shown idle in
          let (one, _) =
            by_instruction-IsSettled p env cmd next cmd.ins (known_instruction ctx cmd guards) q in
          subst goal (sym ok) (one ∙ rw q refl)
    ]

choose-balance :
    (p : Platform) (app : App) (s : Screen) (confirm : Bool)
    → app.screen ≡ s
    → let (next, actions) = choose p app s confirm in
      reply_count actions + owed next.screen ≡ owed app.screen
unfolding choose review_choice on_warning_choice handle_refusal reply_count
choose-balance p app (review r) true e = rw e (omega arith)
choose-balance p app (review r) false e = rw e (omega arith)
choose-balance p app (warning r) true e = rw e (omega arith)
choose-balance p app (warning r) false e = rw e (omega arith)
choose-balance p app menu confirm e = rw e (omega arith)
choose-balance p app signing_spinner confirm e = rw e (omega arith)
choose-balance p app rejected confirm e = rw e (omega arith)
choose-balance p app signed confirm e = rw e (omega arith)
choose-balance p app (failed text) confirm e = rw e (omega arith)

restart-owes : (env : Env) (app : App) → owed (restart env app).screen ≡ 0
unfolding restart
restart-owes env app = ground arith

-- The balance of the replies that a sound application attempts, at any event. An APDU is answered once,
-- or it opens a review that owes the answer; a choice gives this answer, or leads from the warning to
-- the review. There are two exceptions: START_SIGNING_TRANSACTION is answered twice if the
-- first reply could be sent and the coin application is missing, and a failure of the connection drops
-- the answer that a review owes.
pub step-balance :
    (p : Platform) (app : App) (e : Event)
    → IsSound p app
    → reply_count (step p app e).1 + owed (step p app e).0.screen + dropped app e
      ≡ requests e + owed app.screen + doubled p app e
unfolding step abandon reply_count
step-balance p app (apdu env bytes) s = omega (arith, receive-balance p env app bytes s.shown)
step-balance p app (choice env confirm) s =
    omega (arith, choose-balance p app app.screen confirm refl)
step-balance p app (reception_failed env) s =
    omega (arith, restart-owes env (record app { context = zero_context p }))
step-balance p app (io_reset env) s = omega (arith, restart-owes env app)

-- The sum of what each event of a run contributes.
unfoldable pub sum_over : (Platform → App → Event → ℕ) → Platform → App → List Event → ℕ
sum_over count p app [] = 0
sum_over count p app (e ∷ events) = count p app e + sum_over count p (step p app e).0 events

abbrev pub attempts : Platform → App → Event → ℕ
attempts p app e = reply_count (step p app e).1

balance_from :
    (p : Platform) (events : List Event) (app : App)
    → IsSound p app
    → sum_over attempts p app events
        + owed (run p app events).screen
        + sum_over (λ _. dropped) p app events
      ≡ sum_over (λ _ _. requests) p app events + owed app.screen + sum_over doubled p app events
unfolding sum_over run
balance_from p [] app s = omega arith
balance_from p (e ∷ events) app s =
    omega (
      arith,
      step-balance p app e s,
      balance_from p events (step p app e).0 (step-IsSound p app e s),
    )

-- The balance over any run from the start: the replies that the device attempts, the one that a review
-- on the screen still owes, and those that failures of the connection have dropped, are as many as the
-- APDUs, and one more for each START_SIGNING_TRANSACTION whose first reply could be sent and whose coin
-- application is missing.
pub run-balance :
    (p : Platform) (env : Env) (events : List Event)
    → let start = boot p env in
      sum_over attempts p start events
        + owed (run p start events).screen
        + sum_over (λ _. dropped) p start events
      ≡ sum_over (λ _ _. requests) p start events + sum_over doubled p start events
unfolding boot restart
run-balance p env events = balance_from p events (boot p env) (boot-IsSound p env) ∙ omega arith
