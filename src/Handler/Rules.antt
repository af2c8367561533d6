-- ===== src/Handler/Rules.antt =====
-- Rules for handlers: what every step keeps, and what a handler that succeeds has checked.
use app_exchange.Common.{
  ◌≡◌, refl, Bool, true, false, Option, none, some, ◌⊎◌, inl, inr, arith, Bool-cases,
}
use app_exchange.Protocol.Errors.{SwapError}
use app_exchange.Context.{Context}
use app_exchange.Platform.{Env, Response}
use app_exchange.Handler.{Exit, value, refuse, thrown, M, after, require, from_option, conclude}

module _ {ℓ κ} {A : Type ℓ} {B : Type κ} (I : Context → Type 0) where
  pub after-keeps :
      (x : Exit A × Context) (f : A → M B)
      → I x.1
      → ((a : A) (c : Context) → I c → I (f a c).1)
      → I (after x f).1
  after-keeps (value a, c) f h k = k a c h
  after-keeps (refuse r, c) f h k = h
  after-keeps (thrown, c) f h k = h

module _ {ℓ} {A : Type ℓ} (I : Context → Type 0) where
  pub from_option-keeps :
      (o : Option A) (e : SwapError) (c : Context) → I c → I (from_option o e c).1
  from_option-keeps none e c h = h
  from_option-keeps (some a) e c h = h

pub require-keeps :
    (I : Context → Type 0) (b : Bool) (e : SwapError) (c : Context) → I c → I (require b e c).1
require-keeps I true e c h = h
require-keeps I false e c h = h

module _ {ℓ κ} {A : Type ℓ} {B : Type κ} where
  pub from_option-value :
      (o : Option A) (e : SwapError) (c : Context) (f : A → M B) {b : B} {c' : Context}
      → after (from_option o e c) f ≡ (value b, c')
      → (a : A) × (o ≡ some a) × (f a c ≡ (value b, c'))
  from_option-value none e c f h = absurd (ground arith)
  from_option-value (some a) e c f h = (a, refl, h)

  pub after-value :
      (x : Exit A × Context) (f : A → M B) {b : B} {c' : Context}
      → after x f ≡ (value b, c')
      → (a : A) × (c : Context) × (x ≡ (value a, c)) × (f a c ≡ (value b, c'))
  after-value (value a, c) f h = (a, c, refl, h)
  after-value (refuse r, c) f h = absurd (ground arith)
  after-value (thrown, c) f h = absurd (ground arith)

module _ {κ} {B : Type κ} where
  pub require-value :
      (b : Bool) (e : SwapError) (c : Context) (f : Unit {0} → M B) {x : B} {c' : Context}
      → after (require b e c) f ≡ (value x, c')
      → (b ≡ true) × (f tt c ≡ (value x, c'))
  require-value true e c f h = (refl, h)
  require-value false e c f h = absurd (ground arith)

-- Where a handler ends: in the context that its steps have left, or, if they have all succeeded and
-- the reply is sent, one step further.
pub conclude-cases :
    (env : Env) (r : Response) (next : Context → Context) (x : Exit (Unit {0}) × Context)
    → ((conclude env r next x).context ≡ x.1)
      ⊎ ((x ≡ (value tt, x.1)) × ((conclude env r next x).context ≡ next x.1))
unfolding conclude
conclude-cases env r next (value tt, c) = elim (Bool-cases (env.sends r)) [
  | inl e ↦ inr (refl, rw e)
  | inr e ↦ inl (rw e)
]
conclude-cases env r next (refuse e, c) = inl refl
conclude-cases env r next (thrown, c) = inl refl
