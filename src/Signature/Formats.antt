-- ===== src/Signature/Formats.antt =====
-- The formats in which a partner's signature arrives, flow by flow, and the verdict on each.
use app_exchange.Signature.{selector}
use app_exchange.Signature.{der_sig_size}
use app_exchange.Common.{drop-append_left}
use app_exchange.Common.{take-append_left}
use app_exchange.Common.{
  ℕ, ◌+◌, ◌≤◌, ◌≡◌, refl, ◌==◌, Bool, true, false, ◌||◌, List, [], ◌∷◌, ◌++◌, ◌&&◌, ◌⊎◌, inl, inr,
  some, length, arith, if◌then◌else◌, take, drop, get_or, ltb, length-append,
}
use app_exchange.Protocol.States.{signature_checked}
use app_exchange.Protocol.Errors.{sign_verification_fail, success}
use app_exchange.Protocol.Commands.{
  Subcommand, swap, fund, sell, swap_ng, sell_ng, fund_ng, subcommand_eq, Command,
}
use app_exchange.Buf.{pop_uint8_from_buffer}
use app_exchange.CoinConfig.{min_der_signature_length, max_der_signature_length}
use app_exchange.Der.{asn1_get_encoded_integer_size}
use app_exchange.Der.Encoding.{der_signature, encode_sig_der-der_signature}
use app_exchange.Context.{Context}
use app_exchange.Platform.{Platform, Env}
use app_exchange.Handler.{Exit, value, refuse, conclude, status_only, enter}
use app_exchange.Signature.{
  SignatureForm, signature_form, der_of_der, der_of_r_s, received_signature, verify_signature,
  check_tx_signature_steps, check_tx_signature, signed_digest,
}
use mathlib.Core.Path.{subst}

-- A DER signature: its length lies in the bounds and is the one that its header tells.
pub record IsDer (signature : List ℕ) : Type 0 where
  pub long : min_der_signature_length ≤ length signature
  pub short : length signature ≤ max_der_signature_length
  pub header : get_or signature 1 0 + 2 ≡ length signature

abbrev pub IsNg : Subcommand → Type 0
IsNg s = (s ≡ swap_ng) ⊎ ((s ≡ sell_ng) ⊎ (s ≡ fund_ng))

abbrev pub selector_of : Bool → ℕ
selector_of b = if b then 1 else 0

-- What a payload means in a flow: whether a dot stands in front of what is signed, and the signature
-- in DER form. The legacy flows have fixed formats; in the others two selectors stand in front.
pub data SignedAs : Subcommand → List ℕ → Bool → List ℕ → Type 0 where
  legacy_swap : {d : List ℕ} → IsDer d → SignedAs swap d false d
  legacy_fund : {d : List ℕ} → IsDer d → SignedAs fund d true d
  legacy_sell :
      (r s : List ℕ)
      → length r ≡ 32
      → length s ≡ 32
      → SignedAs sell (r ++ s) true (der_signature r s)
  selected_der :
      {c : Subcommand} {d : List ℕ} (dot_prefixed : Bool)
      → IsNg c
      → IsDer d
      → SignedAs c (selector_of dot_prefixed ∷ (0 ∷ d)) dot_prefixed d
  selected_r_s :
      {c : Subcommand} (r s : List ℕ) (dot_prefixed : Bool)
      → IsNg c
      → length r ≡ 32
      → length s ≡ 32
      → SignedAs c (selector_of dot_prefixed ∷ (1 ∷ (r ++ s))) dot_prefixed (der_signature r s)

der_of_der-IsDer : (d : List ℕ) (ctx : Context) → IsDer d → der_of_der d ctx ≡ (value d, ctx)
unfolding der_of_der
der_of_der-IsDer d ctx h =
    let long = h.long in
    let short = h.short in
    let header = h.header in
    let bounds : (ltb (length d) min_der_signature_length
          || ltb max_der_signature_length (length d))
        ≡ false =
      ground arith in
    let told : (get_or d 1 0 + 2 == length d) ≡ true = ground arith in rw (bounds, told) refl

der_of_r_s-der_signature :
    (r s : List ℕ) (ctx : Context)
    → length r ≡ 32
    → length s ≡ 32
    → der_of_r_s (r ++ s) ctx ≡ (value (der_signature r s), ctx)
unfolding der_of_r_s
der_of_r_s-der_signature r s ctx hr hs =
    let (encoded, size, fits) = encode_sig_der-der_signature r s (omega arith) (omega arith) in
    let whole : (length (r ++ s) == 64) ≡ true = let len = length-append r s in ground arith in
    let front : take 32 (r ++ s) ≡ r = subst (λ n. take n (r ++ s) ≡ r) hr (take-append_left r s) in
    let back : drop 32 (r ++ s) ≡ s = subst (λ n. drop n (r ++ s) ≡ s) hr (drop-append_left r s) in
    let room : ltb der_sig_size
          (asn1_get_encoded_integer_size r + asn1_get_encoded_integer_size s + 2)
        ≡ false =
      ground arith in
    rw (whole, front, back, room, encoded) refl

pub legacy_not :
    (c : Subcommand)
    → IsNg c
    → (subcommand_eq c swap ≡ false)
      × (subcommand_eq c fund ≡ false)
      × (subcommand_eq c sell ≡ false)
legacy_not c (inl e) = rw e (refl, refl, refl)
legacy_not c (inr (inl e)) = rw e (refl, refl, refl)
legacy_not c (inr (inr e)) = rw e (refl, refl, refl)

selector-selector_of : (b : Bool) → selector (selector_of b) ≡ some b
selector-selector_of true = refl
selector-selector_of false = refl

pub pop-first : (b : ℕ) (rest : List ℕ) → pop_uint8_from_buffer (b ∷ rest) 0 ≡ some (b, 1)
unfolding pop_uint8_from_buffer
pop-first b rest = let room : ltb (length (b ∷ rest)) 1 ≡ false = ground arith in rw room refl

pop-second : (a b : ℕ) (rest : List ℕ) → pop_uint8_from_buffer (a ∷ (b ∷ rest)) 1 ≡ some (b, 2)
unfolding pop_uint8_from_buffer
pop-second a b rest =
    let room : ltb (length (a ∷ (b ∷ rest))) 2 ≡ false = ground arith in rw room refl

ng_form :
    (c : Subcommand) (dot_prefixed in_r_s : Bool) (rest : List ℕ)
    → IsNg c
    → signature_form c (selector_of dot_prefixed ∷ (selector_of in_r_s ∷ rest))
      ≡ some (record { in_r_s_format = in_r_s; on_dot_prefixed_tx = dot_prefixed; offset = 2 })
unfolding signature_form
ng_form c dot in_r_s rest ng =
    let a = selector_of dot in
    let b = selector_of in_r_s in
    let (no_swap, no_fund, no_sell) : (subcommand_eq c swap ≡ false)
        × (subcommand_eq c fund ≡ false)
        × (subcommand_eq c sell ≡ false) =
      legacy_not c ng in
    rw
      (
        no_swap,
        no_fund,
        no_sell,
        pop-first a (b ∷ rest),
        selector-selector_of dot,
        pop-second a b rest,
        selector-selector_of in_r_s,
      )
      refl

-- The code reads the format, and the signature out of it.
ReadsAs : Subcommand → List ℕ → Bool → List ℕ → Type 0
ReadsAs c payload dot_prefixed signature =
    (form : SignatureForm) × (signature_form c payload ≡ some form)
    × (form.on_dot_prefixed_tx ≡ dot_prefixed)
    × ((ctx : Context) → received_signature form payload ctx ≡ (value signature, ctx))

SignedAs-ReadsAs :
    {c : Subcommand} {payload : List ℕ} {dot_prefixed : Bool} {signature : List ℕ}
    → SignedAs c payload dot_prefixed signature
    → ReadsAs c payload dot_prefixed signature
unfolding ReadsAs signature_form received_signature
SignedAs-ReadsAs (legacy_swap {d} h) = (_, refl, refl, λ ctx. der_of_der-IsDer d ctx h)
SignedAs-ReadsAs (legacy_fund {d} h) = (_, refl, refl, λ ctx. der_of_der-IsDer d ctx h)
SignedAs-ReadsAs (legacy_sell r s hr hs) =
    (_, refl, refl, λ ctx. der_of_r_s-der_signature r s ctx hr hs)
SignedAs-ReadsAs (selected_der {c} {d} dot ng h) =
    (_, ng_form c dot false d ng, refl, λ ctx. der_of_der-IsDer d ctx h)
SignedAs-ReadsAs (selected_r_s {c} r s dot ng hr hs) =
    (_, ng_form c dot true (r ++ s) ng, refl, λ ctx. der_of_r_s-der_signature r s ctx hr hs)

-- The handler's end, for a DER signature that is checked against one of the digests.
abbrev verdict : Platform → Bool → List ℕ → Context → Exit (Unit {0}) × Context
verdict p dot_prefixed signature ctx =
    if p.ecdsa_verify ctx.partner_public_key (signed_digest dot_prefixed ctx) signature
    then (value tt, ctx)
    else (refuse (status_only sign_verification_fail), ctx)

module _ (p : Platform) (cmd : Command) (ctx : Context) where
  steps-verdict :
      (form : SignatureForm) (signature : List ℕ)
      → signature_form cmd.subcommand cmd.payload ≡ some form
      → received_signature form cmd.payload ctx ≡ (value signature, ctx)
      → check_tx_signature_steps p cmd ctx ≡ verdict p form.on_dot_prefixed_tx signature ctx
  unfolding check_tx_signature_steps verify_signature
  steps-verdict form signature formed received = rw (formed, received) (ground arith)

-- A signature in a format of its flow is judged by its DER form, against the digest that the format
-- names: if the partner's key verifies it, the reply is SUCCESS and the state SIGNATURE_CHECKED, if the
-- reply could be sent; else the reply is SIGN_VERIFICATION_FAIL, and the context is kept.
pub check_tx_signature-verdict :
    (p : Platform) (env : Env) (cmd : Command) (ctx : Context) (dot_prefixed : Bool)
    (signature : List ℕ)
    → SignedAs cmd.subcommand cmd.payload dot_prefixed signature
    → let verified =
        p.ecdsa_verify ctx.partner_public_key (signed_digest dot_prefixed ctx) signature in
      let o = check_tx_signature p env cmd ctx in
      (o.attempted ≡ status_only (if verified then success else sign_verification_fail) ∷ [])
      × (o.context ≡ (
          if verified && env.sends (status_only success) then enter signature_checked ctx else ctx))
unfolding check_tx_signature conclude ReadsAs
check_tx_signature-verdict p env cmd ctx dot_prefixed signature signed =
    let (form, formed, dotted, received) = SignedAs-ReadsAs signed in
    rw (steps-verdict p cmd ctx form signature formed (received ctx), dotted) (ground arith)
