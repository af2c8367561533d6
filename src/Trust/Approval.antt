-- ===== src/Trust/Approval.antt =====
-- What a run of the application asks the coin application to sign.
use app_exchange.Common.{
  ℕ, ◌∷◌, ◌≡◌, refl, sym, ap, ◌∙◌, Bool, true, false, List, [], inl, inr, arith, ◌⊎◌,
}
use app_exchange.Protocol.States.{waiting_signing}
use app_exchange.Context.{Context}
use app_exchange.Platform.{Platform, Env, SignCall}
use app_exchange.ApduParser.{check_instruction}
use app_exchange.ApduParser.Reception.{Verdict, check_apdu_validity}
use app_exchange.ApduParser.Frame.{
  check_apdu_validity-IsFramed, check_apdu_validity-writes, check_apdu_validity-guards,
}
use app_exchange.Display.{Screen, menu, warning, review, signing_spinner, rejected, signed, failed}
use app_exchange.Signing.{sign_call}
use app_exchange.Application.{App, Event, apdu, choice, reception_failed, io_reset}
use app_exchange.Application.Cycle.{
  receive_apdu, run_verdict, step, choose, review_choice, on_warning_choice, handle_refusal, run,
  boot,
}
use app_exchange.Trust.{IsTrusted, IsCertified, IsReceived, IsSigned}
use app_exchange.Trust.Calls.{calls_of, AsksOnly, dispatched-AsksOnly}
use app_exchange.Trust.Run.{run-IsSound, boot-IsSound, same_guards, verdict_cases}
use mathlib.Core.Path.{subst}

taken_in :
    (p : Platform) (app : App) (bytes : List ℕ) (calls : List SignCall)
    → AsksOnly p (check_apdu_validity p.layout app.context app.received bytes).context calls
    → AsksOnly p app.context calls
taken_in p app bytes calls asks =
    let framed = check_apdu_validity-IsFramed p.layout app.context app.received bytes in
    elim (check_apdu_validity-writes p.layout app.context app.received bytes) [
      | inl e ↦ subst (λ c. AsksOnly p c calls) e asks
      | inr st ↦ elim asks [
        | inl none_asked ↦ inl none_asked
        | inr (waits, asked) ↦
            let same = ap (λ (c : Context). c.state) framed in absurd (ground arith)
      ]
    ]

receive-AsksOnly :
    (p : Platform) (env : Env) (app : App) (bytes : List ℕ)
    → AsksOnly p app.context (calls_of (receive_apdu p env app bytes).1)
unfolding receive_apdu run_verdict calls_of
receive-AsksOnly p env app bytes =
    let ctx = app.context in
    let r = check_apdu_validity p.layout ctx app.received bytes in
    let framed = check_apdu_validity-IsFramed p.layout ctx app.received bytes in
    let next : App = record app { context = r.context; received = r.received } in
    let asks = λ (v : Verdict). AsksOnly p ctx (calls_of (run_verdict p env next v).1) in
    elim (verdict_cases r.verdict) [
      | inl (e, refused) ↦ subst asks (sym refused) (inl refl)
      | inr (cmd, ok) ↦
          let guards = check_apdu_validity-guards p.layout ctx app.received bytes cmd ok in
          let allowed =
            ap (λ (c : Context). check_instruction c cmd.ins cmd.subcommand) framed
            ∙ (same_guards ctx r.context.transaction cmd.ins cmd.subcommand ∙ guards) in
          subst asks (sym ok) (taken_in p app bytes _ (dispatched-AsksOnly p env cmd next allowed))
    ]

choose-AsksOnly :
    (p : Platform) (app : App) (s : Screen) (confirm : Bool)
    → calls_of (choose p app s confirm).1 ≡ []
unfolding choose review_choice on_warning_choice handle_refusal calls_of
choose-AsksOnly p app (review r) true = refl
choose-AsksOnly p app (review r) false = refl
choose-AsksOnly p app (warning r) true = refl
choose-AsksOnly p app (warning r) false = refl
choose-AsksOnly p app menu confirm = refl
choose-AsksOnly p app signing_spinner confirm = refl
choose-AsksOnly p app rejected confirm = refl
choose-AsksOnly p app signed confirm = refl
choose-AsksOnly p app (failed text) confirm = refl

pub step-AsksOnly :
    (p : Platform) (app : App) (e : Event) → AsksOnly p app.context (calls_of (step p app e).1)
unfolding step calls_of
step-AsksOnly p app (apdu env bytes) = receive-AsksOnly p env app bytes
step-AsksOnly p app (choice env confirm) = inl (choose-AsksOnly p app app.screen confirm)
step-AsksOnly p app (reception_failed env) = inl refl
step-AsksOnly p app (io_reset env) = inl refl

-- The one call that an event may make: for the transaction at hand, in the state that the user's
-- approval leads to, with the whole chain behind it.
abbrev pub SignsTrusted : Platform → Context → List SignCall → Type 0
SignsTrusted p ctx calls =
    (calls ≡ [])
    ⊎ ((ctx.state ≡ waiting_signing)
        × (calls ≡ sign_call p ctx.subcommand ctx ∷ [])
        × IsCertified p ctx
        × IsReceived p ctx
        × IsSigned p ctx)

signs_trusted :
    (p : Platform) (ctx : Context) (calls : List SignCall)
    → IsTrusted p ctx
    → AsksOnly p ctx calls
    → SignsTrusted p ctx calls
signs_trusted p ctx calls t (inl e) = inl e
signs_trusted p ctx calls t (inr (st, e)) =
    inr (st, e, t.certified (ground arith), t.received (ground arith), t.signed (ground arith))

-- After any run from the start of the application, one more event asks the coin application for a
-- signature at most once, and only in state WAITING_SIGNING. The call is the one that the context's
-- transaction, fees and paying coin describe; a signature on credentials that hold the partner's key
-- verifies under Ledger's key; the transaction, but for a swap's payout and refund addresses, is the
-- normal form of what a payload decodes to, whose identifier matches the one that the device has
-- drawn; and a signature on the digest of that payload, or of the payload behind a dot, verifies under
-- the partner's key.
pub run-SignsTrusted :
    (p : Platform) (env : Env) (events : List Event) (e : Event)
    → let app = run p (boot p env) events in SignsTrusted p app.context (calls_of (step p app e).1)
run-SignsTrusted p env events e =
    let app = run p (boot p env) events in
    let sound = run-IsSound p (boot p env) events (boot-IsSound p env) in
    signs_trusted p app.context (calls_of (step p app e).1) sound.trusted (step-AsksOnly p app e)
