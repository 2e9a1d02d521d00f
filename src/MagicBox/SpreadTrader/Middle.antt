-- ===== src/MagicBox/SpreadTrader/Middle.antt =====
-- The price of the spread trader (packages/magicbox/src/plugins/spreadtrader.ts).
use faculty_auxie_mm.MagicBox.Adapter.{maximum, minimum}
use faculty_auxie_mm.MagicBox.Adapter.Laws.{
  maximum_bounds, minimum_bounds, maximum-All, minimum-All,
}
use faculty_auxie_mm.MagicBox.SpreadTrader.{half, Trader, handle, watch_order_book, maximum}
use faculty_auxie_mm.Book.{Level}
use faculty_auxie_mm.Prelude.{
  ◌≡◌, ◌∷◌, ◌*◌, ◌≤◌, ◌<◌, List, ℕ, All, length, map, [], arith, ◌+◌, refl, All-map,
}

All-prices :
    (P : ℕ → Type 0) (ls : List Level) → All P (map (λ l. l.price) ls) → All (λ l. P l.price) ls
All-prices P [] h = tt
All-prices P (l ∷ ls) h = (h.0, All-prices P ls h.1)

All-of_prices :
    (P : ℕ → Type 0) (ls : List Level) → All (λ l. P l.price) ls → All P (map (λ l. l.price) ls)
All-of_prices P [] h = tt
All-of_prices P (l ∷ ls) h = (h.0, All-of_prices P ls h.1)

-- If no bid is above an ask and both sides have one, a book gives a price that no bid is above and
-- that is above no ask.
handle-between :
    (bids asks : List Level) (t : Trader)
    → 0 < length bids
    → 0 < length asks
    → All (λ b. All (λ a. b.price ≤ a.price) asks) bids
    → (twice : ℕ) × ((handle (watch_order_book bids asks) t).spread ≡ half twice)
      × All (λ b. 2 * b.price ≤ twice) bids
      × All (λ a. twice ≤ 2 * a.price) asks
unfolding handle
handle-between [] asks t some_bid some_ask apart = absurd (omega (arith, some_bid))
handle-between (b ∷ bids) [] t some_bid some_ask apart = absurd (omega (arith, some_ask))
handle-between (b ∷ bids) (a ∷ asks) t some_bid some_ask apart =
    let bid_prices = map (λ l. l.price) bids in
    let ask_prices = map (λ l. l.price) asks in
    let bid = maximum b.price bid_prices in
    let ask = minimum a.price ask_prices in
    let le : bid ≤ ask =
      maximum-All (λ p. p ≤ ask) b.price bid_prices
        (All-of_prices (λ p. p ≤ ask) (b ∷ bids)
          (All-map
            (λ x above.
              minimum-All (λ q. x.price ≤ q) a.price ask_prices
                (All-of_prices (λ q. x.price ≤ q) (a ∷ asks) above))
            (b ∷ bids) apart)) in
    (
      bid + ask,
      refl,
      All-map (λ x below. omega (arith, below, le)) (b ∷ bids)
          (All-prices (λ p. p ≤ bid) (b ∷ bids) (maximum_bounds b.price bid_prices)),
      All-map (λ x above. omega (arith, above, le)) (a ∷ asks)
          (All-prices (λ q. ask ≤ q) (a ∷ asks) (minimum_bounds a.price ask_prices)),
    )
