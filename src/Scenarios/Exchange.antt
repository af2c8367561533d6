-- ===== src/Scenarios/Exchange.antt =====
-- The APDUs and the choices of a whole swap, up to the signature.
use app_exchange.Common.{ℕ, ◌∷◌, ◌++◌, List, [], length, replicate, codes, true}
use app_exchange.Protocol.Commands.{
  Instruction, set_partner_key_command, check_partner_command, process_transaction_response_command,
  check_transaction_signature_command, check_payout_address, check_refund_address_and_display,
  start_signing_transaction, instruction_byte,
}
use app_exchange.Platform.{Env, back, not_installed}
use app_exchange.Application.{Event, apdu, choice}
use app_exchange.Scenarios.Device.{calm}
use app_exchange.Scenarios.{start_apdu, credentials, signature_of, proposal, payout_check}

abbrev pub frame : Env → Instruction → List ℕ → Event
frame env ins payload =
    apdu env (0xE0 ∷ (instruction_byte ins ∷ (0 ∷ (0 ∷ (length payload ∷ payload)))))

-- The payout address belongs to another device.
abbrev pub foreign : Env
foreign = record calm { check_address_app = λ call. back 1 1 0xCAFE 0 }

abbrev ether_config : List ℕ
ether_config = 3 ∷ (codes "ETH" ++ (8 ∷ (codes "Ethereum" ++ (0 ∷ []))))

abbrev refund_check : List ℕ
refund_check =
    length ether_config ∷ (ether_config ++ (0x30 ∷ (68 ∷ (replicate 68 1 ++ (2 ∷ (0 ∷ (1 ∷ [])))))))

-- Up to the warning, and through it to the review.
abbrev pub up_to_review : List Event
up_to_review =
    apdu calm start_apdu
    ∷ (frame calm set_partner_key_command credentials.payload
        ∷ (frame calm check_partner_command (signature_of check_partner_command).payload
            ∷ (frame calm process_transaction_response_command proposal.payload
                ∷ (frame calm check_transaction_signature_command
                      (signature_of check_transaction_signature_command).payload
                    ∷ (frame foreign check_payout_address payout_check
                        ∷ (frame calm check_refund_address_and_display refund_check
                            ∷ (choice calm true ∷ [])))))))

abbrev pub approved : List Event
approved = up_to_review ++ (choice calm true ∷ [])

abbrev pub sign_event : Event
sign_event = frame calm start_signing_transaction []

-- The coin application has been removed in the meantime.
abbrev removed : Env
removed = record calm { sign_app = λ call. not_installed }

abbrev pub signed_without_coin : List Event
signed_without_coin = approved ++ (frame removed start_signing_transaction [] ∷ [])
