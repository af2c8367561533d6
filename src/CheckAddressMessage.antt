-- ===== src/CheckAddressMessage.antt =====
-- src/parse_check_address_message.c: a coin configuration, its signature by Ledger and the address
-- parameters, in one command.
pub mod Splitting
use app_exchange.Common.{
  ℕ, ◌+◌, ◌-◌, ◌%◌, ◌≤◌, Bool, not, ◌==◌, ltb, if◌then◌else◌, List, Option, none, some, length,
  take, drop,
}
use app_exchange.Common.Maybe.{◌>>=◌, ◌>>◌, guard}
use app_exchange.Buf.{parse_to_sized_buffer}
use app_exchange.CoinConfig.{check_der_signature_length}

-- The signature takes in the two bytes in front of its content. A content of no bytes, which leaves
-- the C pointer at NULL - 2, gives a signature of two bytes that no caller accepts.
unfoldable pub parse_der_signature : (ℕ → ℕ → ℕ) → List ℕ → ℕ → Option (List ℕ × ℕ)
parse_der_signature u2be input offset = do
  guard (not (ltb (length input) 3))
  (content, offset') ← parse_to_sized_buffer u2be input 1 ((offset + 1) % 65536)
  some (take (length content + 2) (drop (offset' - length content - 2) input), offset')

pub record CheckAddressMessage : Type 0 where
  pub config : List ℕ
  pub der : List ℕ
  pub address_parameters : List ℕ

unfoldable pub parse_check_address_message : (ℕ → ℕ → ℕ) → List ℕ → Option CheckAddressMessage
parse_check_address_message u2be payload = do
  (config, after_config) ← parse_to_sized_buffer u2be payload 1 0
  guard (not (ltb (length config) 1))
  (der, after_der) ← parse_der_signature u2be payload after_config
  guard (check_der_signature_length der)
  (address_parameters, read) ← parse_to_sized_buffer u2be payload 1 after_der
  guard (not (ltb (length address_parameters) 1))
  guard (length payload == read)
  some (record { config = config; der = der; address_parameters = address_parameters })
