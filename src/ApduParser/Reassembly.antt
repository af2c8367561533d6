-- ===== src/ApduParser/Reassembly.antt =====
-- A split APDU is put together again: the chunks of src/apdu_parser.c, from the host's side.
use app_exchange.Common.{
  ℕ, suc, ◌+◌, ◌*◌, ◌-◌, ◌%◌, ◌≤◌, ◌≡◌, sym, Bool, true, false, List, [], ◌∷◌, ◌++◌, length, arith,
  write_at, take, drop, length-append, take-append_left, append_assoc, if◌then◌else◌,
}
use app_exchange.Protocol.States.{provider_checked}
use app_exchange.Protocol.Commands.{
  process_transaction_response_command, Rate, Subcommand, subcommand_byte, rate_byte, Command,
  instruction_of_byte, subcommand_of_byte, rate_of_byte,
}
use app_exchange.Protocol.Errors.{success}
use app_exchange.Context.{Context, raw_transaction}
use app_exchange.Context.Memory.{Layout, as_raw}
use app_exchange.ApduParser.{check_instruction, check_requirement, requirement, refused_for_flow}
use app_exchange.ApduParser.Reception.{
  ReceivedApdu, Verdict, reply, proceed, Header, check_apdu_validity, check_header, check_extension,
  receive_chunk, receive_next, is_same_kind, is_ng, replace_legacy,
}

abbrev pub bit : Bool → ℕ
bit b = if b then 1 else 0

-- A PROCESS_TRANSACTION_RESPONSE APDU that carries one chunk.
abbrev pub chunk_apdu : Subcommand → Rate → Bool → Bool → List ℕ → List ℕ
chunk_apdu s rate extends more chunk =
    0xE0
    ∷ (0x06
        ∷ (rate_byte rate
            ∷ ((subcommand_byte s + 16 * bit extends + 32 * bit more) ∷ (length chunk ∷ chunk))))

abbrev pub header : Subcommand → Rate → Bool → Bool → List ℕ → Header
header s rate extends more chunk = record {
  instruction = process_transaction_response_command;
  rate = rate;
  subcommand = s;
  extends = extends;
  more = more;
  chunk = chunk;
}

-- The extending chunks: `c`, then `cs`; all but the last announce more.
abbrev pub continuation : Subcommand → Rate → List ℕ → List (List ℕ) → List (List ℕ)
continuation s rate c [] = chunk_apdu s rate true false c ∷ []
continuation s rate c (d ∷ cs) = chunk_apdu s rate true true c ∷ continuation s rate d cs

-- The verdicts on a series of APDUs, each received in the context that the one before it left.
unfoldable pub feed : Layout → Context → ReceivedApdu → List (List ℕ) → List Verdict
feed l ctx received [] = []
feed l ctx received (apdu ∷ apdus) =
    let r = check_apdu_validity l ctx received apdu in r.verdict ∷ feed l r.context r.received apdus

abbrev pub concat : List (List ℕ) → List ℕ
concat [] = []
concat (c ∷ cs) = c ++ concat cs

abbrev pub IsReady : Context → Subcommand → Type 0
IsReady ctx s = (ctx.state ≡ provider_checked) × (ctx.subcommand ≡ s) × (is_ng s ≡ true)

same_length : (n : ℕ) → suc (suc (suc (suc (suc n)))) - 5 ≡ n
same_length n = omega arith

pub chunk_apdu-accepted :
    (l : Layout) (ctx : Context) (received : ReceivedApdu) (s : Subcommand) (rate : Rate)
    (extends more : Bool) (chunk : List ℕ)
    → IsReady ctx s
    → check_apdu_validity l ctx received (chunk_apdu s rate extends more chunk)
      ≡ receive_chunk l ctx received (header s rate extends more chunk)
unfolding check_apdu_validity check_header check_instruction check_requirement requirement
    refused_for_flow check_extension replace_legacy instruction_of_byte subcommand_of_byte
    rate_of_byte
chunk_apdu-accepted l ctx received s rate extends more chunk ready =
    ground (arith, same_length (length chunk))

pub no_wrap : (n : ℕ) → n ≤ 512 → n % 65536 ≡ n
no_wrap n h = omega arith

pub splice :
    (acc tail c : List ℕ)
    → write_at (acc ++ tail) (length acc) c
      ≡ (acc ++ c) ++ drop (length acc + length c) (acc ++ tail)
splice acc tail c =
    rw (take-append_left acc tail)
      (sym (append_assoc acc c (drop (length acc + length c) (acc ++ tail))))

abbrev pub holding : Subcommand → Rate → List ℕ → ReceivedApdu
holding s rate acc = record {
  expecting_more = true;
  instruction = process_transaction_response_command;
  rate = rate;
  subcommand = s;
  data_length = length acc;
}

is_same_kind-holding :
    (s : Subcommand) (rate : Rate) (acc c : List ℕ) (more : Bool)
    → is_same_kind (holding s rate acc) (header s rate true more c) ≡ true
unfolding is_same_kind
is_same_kind-holding s rate acc c more = ground arith

unfoldable pub command : Subcommand → Rate → List ℕ → Command
command s rate payload = record {
  ins = process_transaction_response_command;
  rate = rate;
  subcommand = s;
  payload = payload;
}

module _ (l : Layout) (ctx : Context) (s : Subcommand) (rate : Rate) (acc c : List ℕ) where
  take_received :
      (tail : List ℕ)
      → take (length acc + length c) (write_at (acc ++ tail) (length acc) c) ≡ acc ++ c
  take_received tail = rw (splice acc tail c, ← length-append acc c) (take-append_left (acc ++ c) _)

  pub receive_more :
      (tail : List ℕ)
      → ctx.transaction ≡ raw_transaction (acc ++ tail)
      → length acc + length c ≤ 512
      → receive_chunk l ctx (holding s rate acc) (header s rate true true c) ≡ record {
        verdict = reply success;
        context = record ctx {
          transaction = raw_transaction (write_at (acc ++ tail) (length acc) c);
        };
        received = holding s rate (acc ++ c);
      }
  unfolding receive_chunk receive_next as_raw
  receive_more tail e fits =
      ground (arith, is_same_kind-holding s rate acc c true, length-append acc c)

  pub receive_last :
      (tail : List ℕ)
      → ctx.transaction ≡ raw_transaction (acc ++ tail)
      → length acc + length c ≤ 512
      → (receive_chunk l ctx (holding s rate acc) (header s rate true false c)).verdict
        ≡ proceed (command s rate (acc ++ c))
  unfolding receive_chunk receive_next as_raw command
  receive_last tail e fits = ground (
    arith,
    is_same_kind-holding s rate acc c false,
    take_received tail,
    no_wrap (length acc + length c),
  )
