-- ===== src/Display.antt =====
-- src/ui/validate_transaction_nbgl.c: what the user is asked to approve. Texts are lists of bytes.
pub mod Bounds
pub mod Titles
use app_exchange.Common.{
  ℕ, ◌+◌, ◌-◌, Bool, true, false, not, ◌||◌, leb, if◌then◌else◌, List, [], ◌∷◌, ◌++◌, length, take,
  codes, c_string,
}
use app_exchange.Protocol.Commands.{is_swap, is_sell, is_fund, floating, rate_eq}
use app_exchange.Context.{Context}
use app_exchange.Context.Memory.{as_swap, as_sell, as_fund}
use app_exchange.Platform.{Platform}

-- The operation, its two currencies and the word between them.
pub record Operation : Type 0 where
  pub verb : List ℕ
  pub first : List ℕ
  pub link : List ℕ
  pub second : List ℕ

unfoldable pub operation : Platform → Context → Operation
operation p ctx =
    if is_swap ctx.subcommand
    then (let t = as_swap p.layout ctx.transaction in
        record {
          verb = codes "swap ";
          first = c_string t.currency_from;
          link = codes "to ";
          second = c_string t.currency_to;
        })
    else if is_sell ctx.subcommand
    then (let t = as_sell p.layout ctx.transaction in
        record {
          verb = codes "sell ";
          first = c_string t.in_currency;
          link = codes "for ";
          second = c_string t.out_currency;
        })
    else (let t = as_fund p.layout ctx.transaction in
        record {
          verb = codes "fund account";
          first = [];
          link = codes "with ";
          second = c_string t.in_currency;
        })

-- The three delimiters: blanks on Nano; on the larger screens a text of two or three lines.
unfoldable pub delimiters : Platform → Context → ℕ × ℕ × ℕ
delimiters p ctx =
    let o = operation p ctx in
    if not p.screen_size_wallet
    then (32, 32, 32)
    else if is_fund ctx.subcommand || leb 10 (length o.first + length o.second)
    then (10, 32, 10)
    else (32, 10, 32)

-- The text that the format "%s%c%s%c%s%s%c%s%s" describes.
unfoldable pub review_text : List ℕ → ℕ × ℕ × ℕ → Operation → List ℕ
review_text start (d1, d2, d3) o =
    start ++ (d1 ∷ (codes "to" ++ (d2 ∷ (o.verb ++ (o.first ++ (d3 ∷ (o.link ++ o.second)))))))

-- `snprintf` into an array of `size` bytes, the terminator left out.
abbrev pub snprintf : ℕ → List ℕ → List ℕ
snprintf size text = take (size - 1) text

-- REVIEW_TITLE_MAX_SIZE and REVIEW_CONFIRM_MAX_SIZE: sizeof counts each text's terminator.
abbrev pub review_title_max_size : ℕ
review_title_max_size = 19 + 1 + 3 + 1 + 6 + 9 + 1 + 5 + 9 + 1

abbrev pub review_confirm_max_size : ℕ
review_confirm_max_size = 17 + 1 + 3 + 1 + 6 + 9 + 1 + 5 + 9 + 2 + 1

unfoldable pub review_title : Platform → Context → List ℕ
review_title p ctx =
    snprintf review_title_max_size
      (review_text (codes "Review transaction") (delimiters p ctx) (operation p ctx))

unfoldable pub confirm_text : Platform → Context → List ℕ
confirm_text p ctx =
    if p.screen_size_wallet
    then review_text (codes "Sign transaction") (delimiters p ctx) (operation p ctx) ++ codes "?"
    else codes "Sign transaction" ++ (10 ∷ (codes "to" ++ (32 ∷ (operation p ctx).verb)))

unfoldable pub review_confirm : Platform → Context → List ℕ
review_confirm p ctx = snprintf review_confirm_max_size (confirm_text p ctx)

abbrev pub Pairs : Type 0
Pairs = List (List ℕ × List ℕ)

-- One statement `pairs[index].item = …; pairs[index].value = …; index++;` under a test.
abbrev pub pair_if : Bool → List ℕ → List ℕ → Pairs
pair_if true item shown = (item, shown) ∷ []
pair_if false item shown = []

abbrev pub partner_pairs : Platform → Context → Pairs
partner_pairs p ctx =
    pair_if (not (is_fund ctx.subcommand)) (codes "Exchange partner") (c_string ctx.partner_name)
    ++ (if is_sell ctx.subcommand
        then (codes "Email", c_string (as_sell p.layout ctx.transaction).trader_email) ∷ []
        else pair_if (is_fund ctx.subcommand) (codes "User")
            (c_string (as_fund p.layout ctx.transaction).user_id))

abbrev pub receive_pair : Context → List ℕ × List ℕ
receive_pair ctx = (
  if is_fund ctx.subcommand
      then c_string ctx.partner_name
      else if rate_eq ctx.rate floating
      then codes "Receive estimated"
      else codes "Receive",
  c_string ctx.printable_get_amount,
)

unfoldable pub prepare_pairs_list : Platform → Context → Pairs
prepare_pairs_list p ctx =
    let warns = ctx.other_seed_payout in
    let on_nano = if p.screen_size_wallet then false else warns in
    pair_if on_nano (codes "Warning")
      (codes "Receive address does not belong to this Ledger device")
    ++ (pair_if on_nano (codes "Learn more at") (codes "ledger.com/e13")
        ++ (partner_pairs p ctx
            ++ ((codes "Send", c_string ctx.printable_send_amount)
                ∷ (receive_pair ctx
                    ∷ ((codes "Fees", c_string ctx.printable_fees_amount)
                        ∷ pair_if warns (codes "Receive address")
                            (c_string (as_swap p.layout ctx.transaction).payout_address))))))

-- What stands on the screen: a warning to accept first, or the review.
pub record Review : Type 0 where
  pub title : List ℕ
  pub pairs : Pairs
  pub confirm : List ℕ

pub data Screen : Type 0 where
  menu : Screen
  warning : Review → Screen
  review : Review → Screen
  signing_spinner : Screen
  rejected : Screen
  signed : Screen
  failed : List ℕ → Screen

-- What `prepare_title_and_confirm` and `prepare_pairs_list` leave for the review.
unfoldable pub review_of : Platform → Context → Review
review_of p ctx = record {
  title = review_title p ctx;
  pairs = prepare_pairs_list p ctx;
  confirm = review_confirm p ctx;
}

unfoldable pub ui_validate_amounts : Platform → Context → Screen
ui_validate_amounts p ctx =
    let r = review_of p ctx in
    if ctx.other_seed_payout
    then (if p.screen_size_wallet then warning r else review r)
    else review r
