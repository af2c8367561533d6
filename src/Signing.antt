-- ===== src/Signing.antt =====
-- src/start_signing_transaction.c, `create_payin_transaction` of src/currency_lib_calls.c and
-- src/ui/sign_result.c: handing the approved transaction to the coin application.
use app_exchange.Common.{
  ℕ, ◌-◌, Bool, true, false, ◌==◌, if◌then◌else◌, List, [], ◌∷◌, ◌++◌, take, codes, c_string,
}
use app_exchange.Protocol.States.{sign_finished}
use app_exchange.Protocol.Errors.{success}
use app_exchange.Protocol.Commands.{Subcommand, is_swap, is_sell, Command}
use app_exchange.Context.{Context, PbBytes, SwapTransaction}
use app_exchange.Context.Memory.{as_swap, as_sell, as_fund}
use app_exchange.Platform.{Platform, Env, Response, LibCall, not_installed, back, SignCall}
use app_exchange.Handler.{End, returned, exception, status_only}

-- `G_previous_cycle_data`
pub record PreviousCycle : Type 0 where
  pub had_previous_cycle : Bool
  pub was_successful : Bool
  pub appname_last_cycle : List ℕ

abbrev pub used : PbBytes → List ℕ
used b = take b.size b.bytes

-- The header and the hash of a 33-byte extra data take the place of the extra identifier.
unfoldable pub destination_extra : SwapTransaction → List ℕ
destination_extra t =
    if t.payin_extra_data.size == 33 then t.payin_extra_data.bytes else c_string t.payin_extra_id

-- What the coin application is asked to sign. No configuration is a NULL pointer, here no bytes.
unfoldable pub sign_call : Platform → Subcommand → Context → SignCall
unfolding destination_extra
sign_call p subcommand ctx =
    let call : SignCall = record {
      application_name = c_string ctx.payin_binary_name;
      coin_configuration = take ctx.paying_sub_coin_config_size ctx.paying_sub_coin_config;
      amount = used (as_fund p.layout ctx.transaction).in_amount;
      fee_amount = take ctx.transaction_fee_length ctx.transaction_fee;
      destination_address = c_string (as_fund p.layout ctx.transaction).in_address;
      destination_address_extra_id = c_string (as_fund p.layout ctx.transaction).in_extra_id;
    } in
    if is_swap subcommand
    then (let t = as_swap p.layout ctx.transaction in
        record call {
          amount = used t.amount_to_provider;
          destination_address = c_string t.payin_address;
          destination_address_extra_id = destination_extra t;
        })
    else if is_sell subcommand
    then (let t = as_sell p.layout ctx.transaction in
        record call {
          amount = used t.in_amount;
          destination_address = c_string t.in_address;
          destination_address_extra_id = c_string t.in_extra_id;
        })
    else call

-- `char appname[BOLOS_APPNAME_MAX_SIZE_B]` keeps 31 characters of the name.
abbrev pub saved_appname : Context → List ℕ
saved_appname ctx = take 31 (c_string ctx.payin_binary_name)

-- What the handler leaves: the call that it has made, and the data for the next cycle.
pub record SigningOutcome : Type 0 where
  pub context : Context
  pub cycle : PreviousCycle
  pub attempted : List Response
  pub calls : List SignCall
  pub end : End

-- After the call has come back the BSS is corrupted. Of the context only the state is used again.
create_payin_transaction : LibCall ℕ → SignCall → Context → PreviousCycle → SigningOutcome
create_payin_transaction not_installed call ctx cycle = record {
  context = ctx;
  cycle = cycle;
  attempted = status_only success ∷ [];
  calls = call ∷ [];
  end = exception;
}
create_payin_transaction (back _ _ _ result) call ctx cycle = record {
  context = record ctx { state = sign_finished };
  cycle = record cycle { appname_last_cycle = saved_appname ctx; was_successful = result == 1 };
  attempted = status_only success ∷ [];
  calls = call ∷ [];
  end = returned true;
}

unfoldable pub start_signing_transaction :
    Platform → Env → Command → Context → PreviousCycle → SigningOutcome
unfolding create_payin_transaction
start_signing_transaction p env cmd ctx cycle =
    let call = sign_call p cmd.subcommand ctx in
    if env.sends (status_only success)
    then create_payin_transaction (env.sign_app call) call ctx cycle
    else record {
      context = ctx;
      cycle = cycle;
      attempted = status_only success ∷ [];
      calls = [];
      end = returned false;
    }

-- The text of `display_signing_failure`, cut by `snprintf` to REFUSAL_TEXT_MAX_SIZE.
abbrev pub refusal_text_max_size : ℕ
refusal_text_max_size = 75

unfoldable pub refusal_text : List ℕ → List ℕ
refusal_text appname = take (refusal_text_max_size - 1) (
    codes "Incorrect transaction"
    ++ (10 ∷ (codes "rejected by the" ++ (10 ∷ (appname ++ codes " app")))))
