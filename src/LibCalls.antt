-- ===== src/LibCalls.antt =====
-- src/currency_lib_calls.c: calling a coin application as a library, with the checks on what comes
-- back.
use app_exchange.Common.{ℕ, ◌-◌, not, ◌==◌, if◌then◌else◌, List, get_or, c_string, strlcpy}
use app_exchange.Protocol.Errors.{
  SwapError, memory_corruption, amount_formatting_failed, invalid_address,
}
use app_exchange.Platform.{
  Platform, Env, LibCall, not_installed, back, CheckAddressCall, PrintableAmountCall,
}
use app_exchange.Handler.{M, value, thrown}

-- The result of a call that has come back: an error code, or 0 with the output.
pub data LibResult {ℓ} (A : Type ℓ) : Type ℓ where
  failed : SwapError → LibResult A
  output : A → LibResult A

-- `os_lib_call` between two checksums of the BSS; the canary is the stack's. The documentation of the
-- coin applications' interface (docs/technical_information/bss.md) forbids them to write into the BSS
-- during these two calls, and `LibCall` is the interface of one that obeys: whatever it answers, and
-- whatever the checksums are, the context is the one before the call. What an application that breaks
-- the rule leaves of the context, with which C goes on behind the error, is not modelled.
abbrev pub canary_value : ℕ
canary_value = 0xCAFE

abbrev pub os_lib_call_bss_safe {ℓ κ} :
    {A : Type ℓ} {B : Type κ} → LibCall A → (A → LibResult B) → M (LibResult B)
os_lib_call_bss_safe not_installed f ctx = (thrown, ctx)
os_lib_call_bss_safe (back bss_before bss_after canary out) f ctx = (
  if not (bss_before == bss_after)
      then value (failed memory_corruption)
      else if not (canary == canary_value)
      then value (failed memory_corruption)
      else value (f out),
  ctx,
)

-- What is accepted of a printable amount, and its copy into `destination`, of that many bytes.
unfoldable pub accept_printable : ℕ → List ℕ → List ℕ → LibResult (List ℕ)
accept_printable size destination printable =
    if get_or printable 0 0 == 0
    then failed amount_formatting_failed
    else if not (get_or printable (size - 1) 0 == 0)
    then failed amount_formatting_failed
    else output (strlcpy destination (c_string printable) size)

unfoldable pub get_printable_amount :
    Platform → Env → PrintableAmountCall → List ℕ → M (LibResult (List ℕ))
get_printable_amount p env call destination =
    os_lib_call_bss_safe (env.printable_amount_app call)
      (accept_printable p.max_printable_amount_size destination)

unfoldable pub accept_address : ℕ → LibResult (Unit {0})
accept_address result = if not (result == 1) then failed invalid_address else output tt

unfoldable pub check_address : Env → CheckAddressCall → M (LibResult (Unit {0}))
check_address env call = os_lib_call_bss_safe (env.check_address_app call) accept_address
