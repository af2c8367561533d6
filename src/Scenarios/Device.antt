-- ===== src/Scenarios/Device.antt =====
-- A concrete device for the scenarios: a signature is anything that starts with 0x30, and a digest is
-- the first 32 bytes.
use app_exchange.Common.{
  ℕ, ◌∷◌, ◌==◌, true, false, List, [], ◌++◌, some, get_or, take, replicate, codes, ◌*◌, ◌+◌,
}
use app_exchange.Context.{PbBytes, SwapTransaction, SellTransaction, FundTransaction}
use app_exchange.Context.Memory.{Layout}
use app_exchange.Platform.{Platform, TrustedName, back, Env}

abbrev pub no_bytes : PbBytes
no_bytes = record { size = 0; bytes = replicate 32 0 }

abbrev pub amount : PbBytes
amount = record { size = 3; bytes = 0 ∷ (1 ∷ (2 ∷ replicate 13 0)) }

abbrev pub field : List ℕ → List ℕ
field text = text ++ replicate 151 0

abbrev pub swap_message : SwapTransaction
swap_message = record {
  payin_address = field (codes "bc:qaz");
  payin_extra_id = replicate 20 0;
  refund_address = take 151 (field (codes "mine"));
  refund_extra_id = replicate 20 0;
  payout_address = take 151 (field (codes "alice.eth"));
  payout_extra_id = replicate 20 0;
  currency_from = codes "ETH" ++ replicate 7 0;
  currency_to = codes "BTC" ++ replicate 7 0;
  amount_to_provider = amount;
  amount_to_wallet = amount;
  device_transaction_id = replicate 10 65 ++ (0 ∷ []);
  device_transaction_id_ng = no_bytes;
  payin_extra_data = no_bytes;
}

abbrev sell_message : SellTransaction
sell_message = record {
  trader_email = codes "a@b" ++ (0 ∷ []);
  in_currency = codes "BTC" ++ replicate 7 0;
  in_amount = amount;
  in_address = field (codes "qaz");
  out_currency = codes "EUR" ++ replicate 7 0;
  out_amount = record { coefficient = amount; exponent = 2 };
  device_transaction_id = no_bytes;
  in_extra_id = replicate 20 0;
}

abbrev fund_message : FundTransaction
fund_message = record {
  user_id = codes "me" ++ (0 ∷ []);
  account_name = codes "card" ++ (0 ∷ []);
  in_currency = codes "BTC" ++ replicate 7 0;
  in_amount = amount;
  in_address = field (codes "qaz");
  device_transaction_id = no_bytes;
  in_extra_id = replicate 20 0;
}

abbrev pub device_layout : Layout
device_layout = record {
  raw_of = λ _. replicate 512 0;
  swap_of = λ _. swap_message;
  sell_of = λ _. sell_message;
  fund_of = λ _. fund_message;
}

abbrev pub descriptor : TrustedName
descriptor = record {
  is_success = true;
  status_bytes = [];
  challenge_received = true;
  challenge = 7;
  is_context_address = true;
  is_dynamic_resolver = true;
  trusted_name = codes "alice.eth";
  address = codes "bc1alice";
}

abbrev pub u2be : ℕ → ℕ → ℕ
u2be hi lo = 256 * hi + lo

abbrev pub device : Platform
device = record {
  layout = device_layout;
  u2be = u2be;
  u4be_encode = λ n. n ∷ [];
  key_size = 65;
  max_printable_amount_size = 50;
  version = 1 ∷ (0 ∷ (0 ∷ []));
  target_nanos = false;
  screen_size_wallet = true;
  ecdsa_verify = λ key digest signature. get_or signature 0 0 == 0x30;
  init_public_key = λ curve key. (true, key);
  sha256 = λ bytes. (true, take 32 bytes);
  hash_update = λ bytes. true;
  base64_decode = λ n bytes. some bytes;
  decode_swap = λ bytes. (true, swap_message);
  decode_sell = λ bytes. (true, sell_message);
  decode_fund = λ bytes. (true, fund_message);
  trusted_name = λ bytes. descriptor;
}

-- Every reply is sent, and every coin application is installed and agrees.
abbrev pub calm : Env
calm = record {
  sends = λ r. true;
  rng_u8 = λ i. 0;
  rng = replicate 32 5;
  rng_u32 = 7;
  check_address_app = λ call. back 1 1 0xCAFE 1;
  printable_amount_app = λ call. back 1 1 0xCAFE (codes "1 BTC" ++ replicate 45 0);
  sign_app = λ call. back 0 0 0 1;
}
