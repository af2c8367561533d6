-- ===== src/Addresses/Keeping.antt =====
-- What the formatting of the amounts keeps: all that its writes to the shown texts and to the paying
-- coin keep.
use app_exchange.LibCalls.{accept_printable}
use app_exchange.Common.{ℕ, inl, inr, Bool, true, false, List, Bool-cases, if◌then◌else◌}
use app_exchange.Protocol.Commands.{
  Command, Rate, check_payout_address, instruction_eq, Instruction, is_sell, is_fund,
}
use app_exchange.CoinConfig.{CoinConfig}
use app_exchange.Context.{Context}
use app_exchange.Platform.{Platform, Env, LibCall, not_installed, back, PrintableAmountCall}
use app_exchange.Handler.{M, after, done, modify}
use app_exchange.Handler.Rules.{after-keeps, require-keeps}
use app_exchange.LibCalls.{LibResult, failed, output, os_lib_call_bss_safe, get_printable_amount}
use app_exchange.Addresses.{name_buffer, format_amounts, format_others, save_paying_coin}
use app_exchange.Addresses.Amounts.{
  store, format_relevant_amount, format_fees, format_fiat_amount, format_account_name,
  relevant_amount, fiat_text,
}

-- The writes of the step.
pub record KeptByWrites (I : Context → Type 0) : Type 0 where
  pub shown_get : (text : List ℕ) (c : Context) → I c → I (record c { printable_get_amount = text })
  pub shown_send :
      (text : List ℕ) (c : Context) → I c → I (record c { printable_send_amount = text })
  pub shown_fees :
      (text : List ℕ) (c : Context) → I c → I (record c { printable_fees_amount = text })
  pub paying :
      (name config : List ℕ) (size : ℕ) (rate : Rate) (c : Context)
      → I c
      → I (record c {
        payin_binary_name = name;
        paying_sub_coin_config_size = size;
        paying_sub_coin_config = config;
        rate = rate;
      })

pub if-keeps :
    (I : Context → Type 0) (b : Bool) (m n : M (Unit {0})) (c : Context)
    → I (m c).1
    → I (n c).1
    → I ((if b then m else n) c).1
if-keeps I true m n c hm hn = hm
if-keeps I false m n c hm hn = hn

pub lib_call-keeps {ℓ κ} :
    {A : Type ℓ} {B : Type κ} (I : Context → Type 0) (x : LibCall A) (f : A → LibResult B)
    (c : Context)
    → I c
    → I (os_lib_call_bss_safe x f c).1
lib_call-keeps I not_installed f c h = h
lib_call-keeps I (back before end canary out) f c h = h

module _ (p : Platform) (env : Env) (I : Context → Type 0) (k : KeptByWrites I) where
  store-keeps :
      (f : List ℕ → Context → Context)
      → ((text : List ℕ) (c : Context) → I c → I (f text c))
      → (r : LibResult (List ℕ)) (c : Context) → I c
      → I (store f r c).1
  store-keeps f keeps (failed e) c h = h
  store-keeps f keeps (output text) c h = keeps text c h

  -- The call itself writes nothing.
  call-keeps :
      (call : PrintableAmountCall) (destination : List ℕ) (c : Context)
      → I c
      → I (get_printable_amount p env call destination c).1
  unfolding get_printable_amount
  call-keeps call destination c h =
      lib_call-keeps I (env.printable_amount_app call)
        (accept_printable p.max_printable_amount_size destination) c h

  relevant_amount-keeps :
      (ins : Instruction) (config name : List ℕ) (c : Context)
      → I c
      → I (format_relevant_amount p env ins config name c).1
  unfolding format_relevant_amount
  relevant_amount-keeps ins config name c h =
      let received = (relevant_amount p ins c).0 in
      after-keeps I (get_printable_amount p env _ _ c) (store _) (call-keeps _ _ c h) (
        store-keeps _ (λ text c' h'. elim (Bool-cases received) [
          | inl e ↦ rw e (k.shown_get text c' h')
          | inr e ↦ rw e (k.shown_send text c' h')
        ]))

  fees-keeps : (config name : List ℕ) (c : Context) → I c → I (format_fees p env config name c).1
  unfolding format_fees
  fees-keeps config name c h =
      after-keeps I (get_printable_amount p env _ _ c) (store _) (call-keeps _ _ c h)
        (store-keeps _ k.shown_fees)

  fiat-keeps : (c : Context) → I c → I (format_fiat_amount p c).1
  unfolding format_fiat_amount
  fiat-keeps c h = require-keeps I (fiat_text p c).1 _ _ (k.shown_get (fiat_text p c).0 c h)

  account-keeps : (c : Context) → I c → I (format_account_name p c).1
  unfolding format_account_name
  account-keeps c h = k.shown_get _ c h

  save-keeps :
      (cmd : Command) (config : CoinConfig) (c : Context) → I c → I (save_paying_coin cmd config c)
  unfolding save_paying_coin
  save-keeps cmd config c h = elim (Bool-cases (instruction_eq cmd.ins check_payout_address)) [
    | inl e ↦ rw e h
    | inr e ↦ rw e (k.paying _ _ _ _ c h)
  ]

  others_keep :
      (cmd : Command) (config : CoinConfig) (c : Context) → I c → I (format_others p cmd config c).1
  unfolding format_others
  others_keep cmd config c h =
      let fiat : M (Unit {0}) = if is_sell c.subcommand then format_fiat_amount p else done in
      let account : Context → M (Unit {0}) =
        λ c1. if is_fund c1.subcommand then format_account_name p else done in
      let save : M (Unit {0}) = modify (save_paying_coin cmd config) in
      after-keeps I (fiat c) (λ _ c1. after (account c1 c1) (λ _. save))
        (if-keeps I (is_sell c.subcommand) (format_fiat_amount p) done c (fiat-keeps c h) h)
        (λ _ c1 h1.
          after-keeps I (account c1 c1) (λ _. save)
            (if-keeps I (is_fund c1.subcommand) (format_account_name p) done c1
              (account-keeps c1 h1) h1)
            (λ _ c2 h2. save-keeps cmd config c2 h2))

  pub format_amounts-keeps :
      (cmd : Command) (config : CoinConfig) (c : Context)
      → I c
      → I (format_amounts p env cmd config c).1
  unfolding format_amounts
  format_amounts-keeps cmd config c h =
      let name = name_buffer config.application_name in
      let relevant = format_relevant_amount p env cmd.ins config.sub_configuration name in
      let all_fees = format_fees p env config.sub_configuration name in
      let payout = instruction_eq cmd.ins check_payout_address in
      let fees : M (Unit {0}) = if payout then done else all_fees in
      let others : M (Unit {0}) = format_others p cmd config in
      after-keeps I (relevant c) (λ _ c1. after (fees c1) (λ _. others))
        (relevant_amount-keeps cmd.ins config.sub_configuration name c h)
        (λ _ c1 h1.
          after-keeps I (fees c1) (λ _. others)
            (if-keeps I payout done all_fees c1 h1 (fees-keeps config.sub_configuration name c1 h1))
            (λ _ c2 h2. others_keep cmd config c2 h2))
