-- ===== src/Display/Titles.antt =====
-- The texts of the review fit into their arrays.
use app_exchange.Common.{
  ℕ, ◌+◌, ◌≤◌, ◌≡◌, Bool, true, false, List, ◌∷◌, ◌++◌, length, codes, arith, Bool-cases,
  if◌then◌else◌, inl, inr, length-append, take-enough,
}
use app_exchange.Protocol.Commands.{is_swap, is_sell}
use app_exchange.Context.{Context}
use app_exchange.Platform.{Platform}
use app_exchange.Display.{
  Operation, operation, delimiters, review_text, review_title, review_confirm, confirm_text,
}

-- The currencies of an operation fit into their fields of ten bytes, terminator included.
abbrev pub HasCurrencies : Operation → Type 0
HasCurrencies o = (length o.first ≤ 9) × (length o.second ≤ 9)

-- A sale has the longest words.
words_short :
    (p : Platform) (ctx : Context)
    → HasCurrencies (operation p ctx)
    → let o = operation p ctx in
      length o.verb + length o.first + length o.link + length o.second ≤ 27
unfolding operation
words_short p ctx fits = elim (Bool-cases (is_swap ctx.subcommand)) [
  | inl e ↦ let h = rw e at fits in rw e (omega arith)
  | inr e ↦ elim (Bool-cases (is_sell ctx.subcommand)) [
    | inl r ↦ let h = rw (e, r) at fits in rw (e, r) (omega arith)
    | inr r ↦ let h = rw (e, r) at fits in rw (e, r) (omega arith)
  ]
]

length-review_text :
    (start : List ℕ) (d : ℕ × ℕ × ℕ) (o : Operation)
    → length (review_text start d o)
      ≡ length start + 5 + (length o.verb + length o.first + length o.link + length o.second)
unfolding review_text
length-review_text start (d1, d2, d3) o = omega (
  arith,
  length-append start
      (d1 ∷ (codes "to" ++ (d2 ∷ (o.verb ++ (o.first ++ (d3 ∷ (o.link ++ o.second))))))),
  length-append o.verb (o.first ++ (d3 ∷ (o.link ++ o.second))),
  length-append o.first (d3 ∷ (o.link ++ o.second)),
  length-append o.link o.second,
)

if_bound :
    (b : Bool) (n : ℕ) (x y : List ℕ)
    → length x ≤ n
    → length y ≤ n
    → length (if b then x else y) ≤ n
if_bound true n x y hx hy = hx
if_bound false n x y hx hy = hy

confirm_short :
    (p : Platform) (ctx : Context)
    → HasCurrencies (operation p ctx)
    → length (confirm_text p ctx) ≤ 54
unfolding confirm_text
confirm_short p ctx fits =
    let o = operation p ctx in
    let words = words_short p ctx fits in
    let text = review_text (codes "Sign transaction") (delimiters p ctx) o in
    let size = length-review_text (codes "Sign transaction") (delimiters p ctx) o in
    if_bound p.screen_size_wallet 54 (text ++ codes "?")
      (codes "Sign transaction" ++ (10 ∷ (codes "to" ++ (32 ∷ o.verb))))
      (omega (arith, length-append text (codes "?"), size, words)) (omega (arith, words))

-- With currencies that fit into their fields, neither the title nor the last line of the review is cut.
pub review_texts_bounds :
    (p : Platform) (ctx : Context)
    → HasCurrencies (operation p ctx)
    → (review_title p ctx
        ≡ review_text (codes "Review transaction") (delimiters p ctx) (operation p ctx))
      × (review_confirm p ctx ≡ confirm_text p ctx)
unfolding review_title review_confirm
review_texts_bounds p ctx fits =
    let o = operation p ctx in
    let words = words_short p ctx fits in
    let title = length-review_text (codes "Review transaction") (delimiters p ctx) o in
    let short = confirm_short p ctx fits in
    (
      take-enough (review_text (codes "Review transaction") (delimiters p ctx) o) 54 (omega arith),
      take-enough (confirm_text p ctx) 54 short,
    )
