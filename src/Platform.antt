-- ===== src/Platform.antt =====
-- What the application calls and does not implement: the SDK's macros, cryptography and I/O, the
-- nanopb decoder, the base64url decoder of the APR library, the TLV parser and the coin applications. All of it is a parameter.
use app_exchange.Common.{ℕ, Bool, List, Option}
use app_exchange.Protocol.Errors.{SwapError}
use app_exchange.Context.{SwapTransaction, SellTransaction, FundTransaction}
use app_exchange.Context.Memory.{Layout}

-- `cx_curve_t`, as far as the application names it.
pub data Curve : Type 0 where
  secp256k1 secp256r1 : Curve

-- The outcome of `tlv_use_case_trusted_name`: the status, as the bytes that are sent back when it
-- is no success, and the fields of the descriptor.
pub record TrustedName : Type 0 where
  pub is_success : Bool
  pub status_bytes : List ℕ
  pub challenge_received : Bool
  pub challenge : ℕ
  pub is_context_address : Bool
  pub is_dynamic_resolver : Bool
  pub trusted_name : List ℕ
  pub address : List ℕ

-- What is fixed for a device: functions whose result is determined by their arguments, the sizes of
-- the SDK's types, and the build flags TARGET_NANOS and SCREEN_SIZE_WALLET.
pub record Platform : Type 0 where
  pub layout : Layout
  pub u2be : ℕ → ℕ → ℕ
  pub u4be_encode : ℕ → List ℕ
  pub key_size : ℕ
  pub max_printable_amount_size : ℕ
  pub version : List ℕ
  pub target_nanos : Bool
  pub screen_size_wallet : Bool
  -- The verdict on a hash and a signature under a key.
  pub ecdsa_verify : List ℕ → List ℕ → List ℕ → Bool
  -- Whether the status is CX_OK, and the memory of the key or of the digest afterwards.
  pub init_public_key : Curve → List ℕ → Bool × List ℕ
  pub sha256 : List ℕ → Bool × List ℕ
  pub hash_update : List ℕ → Bool
  -- The decoded bytes, at most as many as the first argument says; `none` is the result -1.
  pub base64_decode : ℕ → List ℕ → Option (List ℕ)
  -- The result of `pb_decode`, and the struct that it has filled.
  pub decode_swap : List ℕ → Bool × SwapTransaction
  pub decode_sell : List ℕ → Bool × SellTransaction
  pub decode_fund : List ℕ → Bool × FundTransaction
  pub trusted_name : List ℕ → TrustedName

-- A status word with the bytes in front of it.
pub record Response : Type 0 where
  pub body : List ℕ
  pub status : SwapError

-- What one `os_lib_call` does: it throws SWO_SEC_APP_14, or it comes back, with the checksums of the
-- BSS before and after, the canary and the called application's output.
pub data LibCall {ℓ} (A : Type ℓ) : Type ℓ where
  not_installed : LibCall A
  back : ℕ → ℕ → ℕ → A → LibCall A

pub record CheckAddressCall : Type 0 where
  pub application_name : List ℕ
  pub coin_configuration : List ℕ
  pub address_parameters : List ℕ
  pub address_to_check : List ℕ
  pub extra_id_to_check : List ℕ

pub record PrintableAmountCall : Type 0 where
  pub application_name : List ℕ
  pub coin_configuration : List ℕ
  pub amount : List ℕ
  pub is_fee : Bool

pub record SignCall : Type 0 where
  pub application_name : List ℕ
  pub coin_configuration : List ℕ
  pub amount : List ℕ
  pub fee_amount : List ℕ
  pub destination_address : List ℕ
  pub destination_address_extra_id : List ℕ

-- What may differ from one event to the next: the success of sending, the random numbers and the
-- coin applications' answers.
pub record Env : Type 0 where
  pub sends : Response → Bool
  pub rng_u8 : ℕ → ℕ
  pub rng : List ℕ
  pub rng_u32 : ℕ
  pub check_address_app : CheckAddressCall → LibCall ℕ
  pub printable_amount_app : PrintableAmountCall → LibCall (List ℕ)
  -- Whether the signing application is found (it comes back), and its result.
  pub sign_app : SignCall → LibCall ℕ
