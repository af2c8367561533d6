-- ===== src/Trust/Partner.antt =====
-- The handlers up to the check of the partner keep the context trusted.
use app_exchange.Common.{◌≡◌, Option-cases, inl, inr, arith}
use app_exchange.Protocol.States.{waiting_transaction, provider_set}
use app_exchange.Protocol.Commands.{Command}
use app_exchange.Context.{Context}
use app_exchange.Platform.{Platform, Env}
use app_exchange.Session.{start_new_transaction}
use app_exchange.Partner.{parse_set_partner_key_command, set_partner_key, check_partner}
use app_exchange.Trust.{IsTrusted}

pub start_new_transaction-IsTrusted :
    (p : Platform) (env : Env) (cmd : Command) (ctx : Context)
    → IsTrusted p (start_new_transaction p env cmd ctx).context
unfolding start_new_transaction
start_new_transaction-IsTrusted p env cmd ctx = ground arith

pub set_partner_key-IsTrusted :
    (p : Platform) (env : Env) (cmd : Command) (ctx : Context)
    → ctx.state ≡ waiting_transaction
    → ctx.subcommand ≡ cmd.subcommand
    → IsTrusted p ctx
    → IsTrusted p (set_partner_key p env cmd ctx).context
set_partner_key-IsTrusted p env cmd ctx st sub t =
    elim (Option-cases (parse_set_partner_key_command p.u2be cmd.subcommand cmd.payload)) [
      | inl e ↦ unfold set_partner_key in (ground arith)
      | inr (c, e) ↦ record {
        ledger = unfold set_partner_key in (ground arith);
        loaded =
            unfold set_partner_key in
            (λ h. (cmd.payload, (c, ground arith, ground arith, ground arith), ground arith));
        certified = unfold set_partner_key in (ground arith);
        received = unfold set_partner_key in (ground arith);
        signed = unfold set_partner_key in (ground arith);
      }
    ]

-- In state PROVIDER_SET the handler of Ledger's signature keeps a trusted context trusted. Where it
-- ends in PROVIDER_CHECKED this says that Ledger's key has verified a signature on the digest of the
-- credentials that hold the partner's key.
pub check_partner-IsTrusted :
    (p : Platform) (env : Env) (cmd : Command) (ctx : Context)
    → ctx.state ≡ provider_set
    → IsTrusted p ctx
    → IsTrusted p (check_partner p env cmd ctx).context
unfolding check_partner
check_partner-IsTrusted p env cmd ctx st t =
    let (credentials, key, digest) = t.loaded (ground arith) in
    record {
      ledger = ground arith;
      loaded = ground arith;
      certified = λ h. (
        credentials,
        cmd.payload,
        (key.0, ground arith, ground arith, ground arith),
        ground arith,
      );
      received = ground arith;
      signed = ground arith;
    }
