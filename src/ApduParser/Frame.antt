-- ===== src/ApduParser/Frame.antt =====
-- What `check_apdu_validity` may change, and what a command that it lets through satisfies.
use app_exchange.Common.{
  ℕ, ◌≡◌, true, false, List, none, arith, ◌⊎◌, Option-cases, Bool-cases, &&-true_left,
  &&-true_right, inl, inr,
}
use app_exchange.Protocol.Commands.{
  Instruction, Subcommand, Command, instruction_eq, process_transaction_response_command,
  instruction_eq→eq, subcommand_eq→eq,
}
use app_exchange.Context.{Context}
use app_exchange.Context.Memory.{Layout}
use app_exchange.Protocol.States.{provider_checked}
use app_exchange.ApduParser.{check_instruction, check_requirement, requirement, refused_for_flow}
use app_exchange.ApduParser.Reception.{
  ReceivedApdu, Reception, proceed, Header, check_apdu_validity, check_header, check_extension,
  receive_chunk, receive_first, receive_next, is_same_kind,
}

-- Only the union of the transaction can change, and only into the bytes of a split APDU.
abbrev pub IsFramed : Context → Reception → Type 0
IsFramed ctx r = r.context ≡ record ctx { transaction = r.context.transaction }

receive_chunk-IsFramed :
    (l : Layout) (ctx : Context) (received : ReceivedApdu) (h : Header)
    → IsFramed ctx (receive_chunk l ctx received h)
unfolding receive_chunk receive_first receive_next
receive_chunk-IsFramed l ctx received h = ground arith

check_header-IsFramed :
    (l : Layout) (ctx : Context) (received : ReceivedApdu) (h : Header) (p2 : ℕ)
    → IsFramed ctx (check_header l ctx received h p2)
unfolding check_header
check_header-IsFramed l ctx received h p2 = ground (arith, receive_chunk-IsFramed l ctx received h)

pub check_apdu_validity-IsFramed :
    (l : Layout) (ctx : Context) (received : ReceivedApdu) (apdu : List ℕ)
    → IsFramed ctx (check_apdu_validity l ctx received apdu)
unfolding check_apdu_validity
check_apdu_validity-IsFramed l ctx received apdu = grind (arith, check_header-IsFramed)

is_same_kind_lem :
    (received : ReceivedApdu) (h : Header)
    → is_same_kind received h ≡ true
    → (received.instruction ≡ h.instruction) × (received.subcommand ≡ h.subcommand)
unfolding is_same_kind
is_same_kind_lem received h e = (
  instruction_eq→eq received.instruction h.instruction (&&-true_left _ _ e),
  subcommand_eq→eq received.subcommand h.subcommand (&&-true_right _ _ (&&-true_right _ _ e)),
)

receive_next_header :
    (l : Layout) (ctx : Context) (received : ReceivedApdu) (h : Header) (cmd : Command)
    → (receive_next l ctx received h).verdict ≡ proceed cmd
    → (cmd.ins ≡ h.instruction) × (cmd.subcommand ≡ h.subcommand)
unfolding receive_next
receive_next_header l ctx received h cmd e = ground (arith, is_same_kind_lem received h)

receive_first_header :
    (l : Layout) (ctx : Context) (received : ReceivedApdu) (h : Header) (cmd : Command)
    → (receive_first l ctx received h).verdict ≡ proceed cmd
    → (cmd.ins ≡ h.instruction) × (cmd.subcommand ≡ h.subcommand)
unfolding receive_first
receive_first_header l ctx received h cmd e = ground arith

receive_chunk_header :
    (l : Layout) (ctx : Context) (received : ReceivedApdu) (h : Header) (cmd : Command)
    → (receive_chunk l ctx received h).verdict ≡ proceed cmd
    → (cmd.ins ≡ h.instruction) × (cmd.subcommand ≡ h.subcommand)
unfolding receive_chunk
receive_chunk_header l ctx received h cmd e =
    ground
      (arith, receive_next_header l ctx received h cmd, receive_first_header l ctx received h cmd)

check_header-guards :
    (l : Layout) (ctx : Context) (received : ReceivedApdu) (h : Header) (p2 : ℕ) (cmd : Command)
    → (check_header l ctx received h p2).verdict ≡ proceed cmd
    → check_instruction ctx cmd.ins cmd.subcommand ≡ none
unfolding check_header
check_header-guards l ctx received h p2 cmd e =
    ground (arith, receive_chunk_header l ctx received h cmd)

-- A command that may run has passed the guards of its instruction in the current context.
pub check_apdu_validity-guards :
    (l : Layout) (ctx : Context) (received : ReceivedApdu) (apdu : List ℕ) (cmd : Command)
    → (check_apdu_validity l ctx received apdu).verdict ≡ proceed cmd
    → check_instruction ctx cmd.ins cmd.subcommand ≡ none
unfolding check_apdu_validity
check_apdu_validity-guards l ctx received apdu cmd e = grind (arith, check_header-guards)

-- Outside the state in which a transaction is expected, the parser leaves the whole context alone.
whole_apdu_writes :
    (l : Layout) (ctx : Context) (received : ReceivedApdu) (h : Header)
    → h.extends ≡ false
    → h.more ≡ false
    → (receive_chunk l ctx received h).context ≡ ctx
unfolding receive_chunk receive_first
whole_apdu_writes l ctx received h extends more = ground arith

checked_extension :
    (h : Header) (p2 : ℕ)
    → check_extension h p2 ≡ none
    → instruction_eq h.instruction process_transaction_response_command ≡ false
    → (h.extends ≡ false) × (h.more ≡ false)
unfolding check_extension
checked_extension h p2 e other = ground arith

process_state :
    (ctx : Context) (i : Instruction) (s : Subcommand)
    → check_instruction ctx i s ≡ none
    → instruction_eq i process_transaction_response_command ≡ true
    → ctx.state ≡ provider_checked
unfolding check_instruction check_requirement requirement refused_for_flow
process_state ctx i s e same = ground arith

check_header-writes :
    (l : Layout) (ctx : Context) (received : ReceivedApdu) (h : Header) (p2 : ℕ)
    → ((check_header l ctx received h p2).context ≡ ctx) ⊎ (ctx.state ≡ provider_checked)
unfolding check_header
check_header-writes l ctx received h p2 =
    elim (Option-cases (check_instruction ctx h.instruction h.subcommand)) [
      | inr (e, i) ↦ inl (ground arith)
      | inl i ↦ elim (Option-cases (check_extension h p2)) [
        | inr (e, x) ↦ inl (ground arith)
        | inl x ↦
            elim (Bool-cases (instruction_eq h.instruction process_transaction_response_command)) [
              | inl same ↦ inr (process_state ctx h.instruction h.subcommand i same)
              | inr other ↦
                  let (extends, more) = checked_extension h p2 x other in
                  let kept = whole_apdu_writes l ctx received h extends more in inl (ground arith)
            ]
      ]
    ]

-- The reception of an APDU by `check_apdu_validity`, before any command runs, leaves the context as it
-- was, unless the state is PROVIDER_CHECKED, in which a transaction is expected.
pub check_apdu_validity-writes :
    (l : Layout) (ctx : Context) (received : ReceivedApdu) (apdu : List ℕ)
    → ((check_apdu_validity l ctx received apdu).context ≡ ctx) ⊎ (ctx.state ≡ provider_checked)
unfolding check_apdu_validity
check_apdu_validity-writes l ctx received apdu = grind (arith, check_header-writes)
