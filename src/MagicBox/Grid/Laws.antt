-- ===== src/MagicBox/Grid/Laws.antt =====
-- What the grid trader keeps of its grid, and what a filled order changes.
use faculty_auxie_mm.Prelude.Text.{Text}
use faculty_auxie_mm.Orders.{OrderSide}
use faculty_auxie_mm.Book.{OrderBook}
use faculty_auxie_mm.MagicBox.Grid.{
  not_submitted, thrown, submitted, Trader, GridOrder, modify_order_in_grid, OrderBook, OrderSide,
  Submission, submit_missing, handle_order_book, on_lock_acquired, Text, resubmitted, Grid,
  submitted, after_fill, not, look_up_order_from_grid, check_for_unsubmitted_orders, opposite,
  with_best, submit_grid_order_to_exchange, is_thrown, handle_event, handle_events, Event,
  book_changed, order_changed, is_closed,
}
use faculty_auxie_mm.Prelude.{
  if◌then◌else◌, ◌≡◌, ◌∷◌, ◌==◌, ◌&&◌, none, some, true, false, refl, [], inl, inr, List, Option,
  Bool, ℕ, map, Bool-cases, Option-cases, ap, not, sym, ==_iff, ◌∙◌,
}

abbrev pub prices : List GridOrder → List ℕ
prices = map (λ o. o.current_price)

modify-prices :
    (p : ℕ) (side : OrderSide) (next : ℕ) (opened' : Bool) (id : Option Text) (os : List GridOrder)
    → prices (modify_order_in_grid p side p next opened' id os) ≡ prices os
unfolding modify_order_in_grid
modify-prices p side next opened' id [] = refl
modify-prices p side next opened' id (o ∷ os) = elim (Bool-cases (o.current_price == p)) [
  | inl is ↦
      rw (is, modify-prices p side next opened' id os)
        (ap (λ x. x ∷ prices os) (sym ((==_iff o.current_price p).0 is)))
  | inr other ↦ rw (other, modify-prices p side next opened' id os) refl
]

module _ (trader : Trader) (book : Option OrderBook) where
  resubmitted-price :
      (o : GridOrder) (r : Submission)
      → (resubmitted trader book o r).current_price ≡ o.current_price
  resubmitted-price o (submitted id) = refl
  resubmitted-price o not_submitted = refl
  resubmitted-price o thrown = refl

  submit_missing-prices :
      (g : Grid) (os : List GridOrder) (t : trader.State)
      → prices (submit_missing trader book g os t).0 ≡ prices os
  unfolding submit_missing
  submit_missing-prices g [] t = refl
  submit_missing-prices g (o ∷ os) t =
      let r =
        submit_grid_order_to_exchange trader book o.current_price o.order_size o.current_side g t in
      elim (Bool-cases o.order_in_book) [
        | inl is ↦
            rw (is, submit_missing) (ap (λ ps. o.current_price ∷ ps) (submit_missing-prices g os t))
        | inr other ↦ elim (Bool-cases (is_thrown trader book r.1)) [
          | inl stopped ↦ rw (other, stopped, submit_missing) refl
          | inr goes_on ↦
              rw (other, goes_on, submit_missing, resubmitted-price o r.1)
                (ap (λ ps. o.current_price ∷ ps) (submit_missing-prices g os r.0))
        ]
      ]

  after_fill-prices :
      (o : GridOrder) (side : OrderSide) (g : Grid) (r : trader.State × Submission)
      → prices (after_fill trader book o side g r).0.order_grid ≡ prices g.order_grid
  after_fill-prices o side g (t, submitted id) =
      modify-prices o.current_price side o.starting_price true (some id) g.order_grid
  after_fill-prices o side g (t, not_submitted) =
      modify-prices o.current_price side o.starting_price false none g.order_grid
  after_fill-prices o side g (t, thrown) = refl

  handle_order_book-prices :
      (b : OrderBook) (g : Grid) (t : trader.State)
      → prices (handle_order_book trader book b g t).0.order_grid ≡ prices g.order_grid
  unfolding handle_order_book
  handle_order_book-prices b g t =
      elim (Bool-cases (not g.cross_enabled && check_for_unsubmitted_orders g.order_grid)) [
        | inl is ↦ rw is (submit_missing-prices (with_best b g) g.order_grid t)
        | inr other ↦ rw other refl
      ]

  on_lock_acquired-prices :
      (id : Text) (side : OrderSide) (g : Grid) (t : trader.State)
      → prices (on_lock_acquired trader book id side g t).0.order_grid ≡ prices g.order_grid
  unfolding on_lock_acquired
  on_lock_acquired-prices id side g t =
      elim (Option-cases (look_up_order_from_grid id g.order_grid)) [
        | inl absent ↦ rw (absent, on_lock_acquired) refl
        | inr (o, found) ↦
            rw (found, on_lock_acquired)
              (after_fill-prices o (opposite side) g (
                submit_grid_order_to_exchange trader book o.current_price o.order_size
                  (opposite side) g t))
      ]

module _ (trader : Trader) where
  prices_if :
      (ps : List ℕ) (b : Bool) (x y : Grid × trader.State)
      → prices x.0.order_grid ≡ ps
      → prices y.0.order_grid ≡ ps
      → prices (if b then x else y).0.order_grid ≡ ps
  prices_if ps true x y h k = h
  prices_if ps false x y h k = k

  handle_event-prices :
      (book : Option OrderBook) (e : Event) (s : Grid × trader.State)
      → prices (handle_event trader book e s).0.order_grid ≡ prices s.0.order_grid
  unfolding handle_event
  handle_event-prices book (book_changed b) (g, t) = handle_order_book-prices trader book b g t
  handle_event-prices book (order_changed id side status) (g, t) =
      prices_if (prices g.order_grid) (is_closed status && not g.lock_held)
        (on_lock_acquired trader book id side g t) (g, t)
        (on_lock_acquired-prices trader book id side g t) refl

  -- Whatever books and orders the grid trader is told of, and whatever the executor answers, the
  -- orders of its grid keep their prices and their places.
  pub handle_events-prices :
      (es : List (Option OrderBook × Event)) (s : Grid × trader.State)
      → prices (handle_events trader es s).0.order_grid ≡ prices s.0.order_grid
  unfolding handle_events
  handle_events-prices [] s = refl
  handle_events-prices ((book, e) ∷ es) s =
      handle_events-prices es (handle_event trader book e s) ∙ handle_event-prices book e s
