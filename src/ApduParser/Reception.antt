-- ===== src/ApduParser/Reception.antt =====
-- `check_apdu_validity` of src/apdu_parser.c. An APDU is the list of the bytes received.
use app_exchange.Common.{
  ℕ, ◌+◌, ◌-◌, ◌%◌, ◌/◌, Bool, true, false, not, ◌&&◌, ◌||◌, ◌==◌, ltb, if◌then◌else◌, List, Option,
  none, some, length, take, drop, get_or, write_at,
}
use app_exchange.Protocol.Commands.{
  Instruction, check_payout_address, check_asset_in_and_display,
  process_transaction_response_command, unknown, instruction_of_byte, instruction_eq, Rate, fixed,
  rate_of_byte, rate_eq, Subcommand, swap, sell, fund, swap_ng, sell_ng, fund_ng,
  subcommand_of_byte, subcommand_eq, Command,
}
use app_exchange.Protocol.Errors.{
  SwapError, malformed_apdu, class_not_supported, wrong_p1, wrong_p2_subcommand, wrong_p2_extension,
  invalid_p2_extension, success,
}
use app_exchange.Context.{Context, raw_transaction, raw_transaction_size}
use app_exchange.Context.Memory.{Layout, as_raw}
use app_exchange.ApduParser.{check_instruction}

-- `G_received_apdu`: what is remembered of a split APDU.
pub record ReceivedApdu : Type 0 where
  pub expecting_more : Bool
  pub instruction : Instruction
  pub rate : Rate
  pub subcommand : Subcommand
  pub data_length : ℕ

-- The BSS at start: all zero, and 0 is no instruction.
abbrev pub no_apdu : ReceivedApdu
no_apdu = record {
  expecting_more = false;
  instruction = unknown;
  rate = fixed;
  subcommand = swap;
  data_length = 0;
}

-- A status word to reply, or (result 0) a command to run.
pub data Verdict : Type 0 where
  reply : SwapError → Verdict
  proceed : Command → Verdict

pub record Reception : Type 0 where
  pub verdict : Verdict
  pub context : Context
  pub received : ReceivedApdu

-- The masks of src/commands.h on the byte P2: `p2 & SUBCOMMAND_MASK`, `extension & P2_EXTEND`,
-- `extension & P2_MORE` and `extension & ~(P2_NONE | P2_MORE | P2_EXTEND)`.
abbrev pub subcommand_bits : ℕ → ℕ
subcommand_bits p2 = p2 % 16

abbrev pub has_extend : ℕ → Bool
has_extend p2 = p2 / 16 % 2 == 1

abbrev pub has_more : ℕ → Bool
has_more p2 = p2 / 32 % 2 == 1

abbrev pub has_other_extension : ℕ → Bool
has_other_extension p2 = not (p2 / 64 == 0)

-- The legacy value of CHECK_ASSET_IN_AND_DISPLAY, which is that of CHECK_PAYOUT_ADDRESS.
unfoldable pub replace_legacy : Instruction → Subcommand → Instruction
replace_legacy instruction subcommand =
    if instruction_eq instruction check_payout_address
      && (subcommand_eq subcommand sell || subcommand_eq subcommand fund)
    then check_asset_in_and_display
    else instruction

abbrev pub is_ng : Subcommand → Bool
is_ng s = subcommand_eq s swap_ng || (subcommand_eq s sell_ng || subcommand_eq s fund_ng)

-- The fields of an APDU that has passed the checks, `chunk` its data bytes.
pub record Header : Type 0 where
  pub instruction : Instruction
  pub rate : Rate
  pub subcommand : Subcommand
  pub extends : Bool
  pub more : Bool
  pub chunk : List ℕ

finish_reception : Context → ReceivedApdu → Header → List ℕ → Reception
finish_reception ctx received h payload =
    if h.more
    then record { verdict = reply success; context = ctx; received = received }
    else record {
      verdict = proceed (record {
        ins = received.instruction;
        rate = received.rate;
        subcommand = received.subcommand;
        payload = payload;
      });
      context = ctx;
      received = record received { expecting_more = false };
    }

-- A first chunk, or an APDU that is not split: its data stay in the reception buffer.
unfoldable pub receive_first : Layout → Context → ReceivedApdu → Header → Reception
unfolding finish_reception
receive_first layout ctx received h =
    let header = record received {
      instruction = h.instruction;
      rate = h.rate;
      subcommand = h.subcommand;
      data_length = length h.chunk;
    } in
    if h.more
    then finish_reception
        (record ctx {
          transaction = raw_transaction (write_at (as_raw layout ctx.transaction) 0 h.chunk);
        })
        (record header { expecting_more = true }) h h.chunk
    else finish_reception ctx header h h.chunk

unfoldable pub is_same_kind : ReceivedApdu → Header → Bool
is_same_kind received h =
    instruction_eq received.instruction h.instruction
    && (rate_eq received.rate h.rate && subcommand_eq received.subcommand h.subcommand)

-- A chunk that extends what has been received, in `G_swap_ctx.raw_transaction`.
unfoldable pub receive_next : Layout → Context → ReceivedApdu → Header → Reception
unfolding finish_reception
receive_next layout ctx received h =
    if not received.expecting_more
    then record { verdict = reply invalid_p2_extension; context = ctx; received = received }
    else if not (is_same_kind received h)
    then record { verdict = reply invalid_p2_extension; context = ctx; received = received }
    else if ltb raw_transaction_size (received.data_length + length h.chunk)
    then record { verdict = reply invalid_p2_extension; context = ctx; received = received }
    else let raw = write_at (as_raw layout ctx.transaction) received.data_length h.chunk in
      let total = (received.data_length + length h.chunk) % 65536 in
      finish_reception (record ctx { transaction = raw_transaction raw })
        (record received { data_length = total }) h (take total raw)

unfoldable pub receive_chunk : Layout → Context → ReceivedApdu → Header → Reception
receive_chunk layout ctx received h =
    if h.extends then receive_next layout ctx received h else receive_first layout ctx received h

-- The checks on the extension, behind those on the instruction.
unfoldable pub check_extension : Header → ℕ → Option SwapError
check_extension h p2 =
    let is_whole_apdu = not h.extends && not h.more in
    if has_other_extension p2
    then some wrong_p2_extension
    else if not (is_ng h.subcommand) && not is_whole_apdu
    then some wrong_p2_extension
    else if not (instruction_eq h.instruction process_transaction_response_command)
        && not is_whole_apdu
    then some wrong_p2_extension
    else none

abbrev refuse : Context → ReceivedApdu → SwapError → Reception
refuse ctx received e = record { verdict = reply e; context = ctx; received = received }

unfoldable pub check_header : Layout → Context → ReceivedApdu → Header → ℕ → Reception
check_header layout ctx received h p2 = elim (check_instruction ctx h.instruction h.subcommand) [
  | some e ↦ refuse ctx received e
  | none ↦ elim (check_extension h p2) [
    | some e ↦ refuse ctx received e
    | none ↦ receive_chunk layout ctx received h
  ]
]

unfoldable pub check_apdu_validity : Layout → Context → ReceivedApdu → List ℕ → Reception
check_apdu_validity layout ctx received apdu =
    if ltb (length apdu) 5
    then refuse ctx received malformed_apdu
    else if not (get_or apdu 4 0 == length apdu - 5)
    then refuse ctx received malformed_apdu
    else if not (get_or apdu 0 0 == 0xE0)
    then refuse ctx received class_not_supported
    else elim (rate_of_byte (get_or apdu 2 0)) [
      | none ↦ refuse ctx received wrong_p1
      | some rate ↦ elim (subcommand_of_byte (subcommand_bits (get_or apdu 3 0))) [
        | none ↦ refuse ctx received wrong_p2_subcommand
        | some subcommand ↦
            let p2 = get_or apdu 3 0 in
            let h : Header = record {
              instruction = replace_legacy (instruction_of_byte (get_or apdu 1 0)) subcommand;
              rate = rate;
              subcommand = subcommand;
              extends = has_extend p2;
              more = has_more p2;
              chunk = drop 5 apdu;
            } in
            check_header layout ctx received h p2
      ]
    ]
