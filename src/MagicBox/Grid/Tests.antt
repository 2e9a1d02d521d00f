-- ===== src/MagicBox/Grid/Tests.antt =====
-- A grid of two orders whose bid is filled.
use mathlib.Core.Option.{some-injective}
use faculty_auxie_mm.Book.{OrderBook}
use faculty_auxie_mm.Prelude.Text.{Text, codes, text_eq, text_eq_iff}
use faculty_auxie_mm.MagicBox.Grid.Laws.{prices, handle_events-prices}
use faculty_auxie_mm.MagicBox.Grid.Fills.{Holds, on_lock_acquired_submitted}
use faculty_auxie_mm.Orders.{OrderSide, buy, sell, closed}
use faculty_auxie_mm.MagicBox.Grid.{
  Trader, GridOrder, Grid, look_up_order_from_grid, Text, buy, sell, OrderBook, handle_events,
  submit_grid_order_to_exchange, Event, check_for_cross, order_changed, on_lock_acquired, closed,
  text_eq,
}
use faculty_auxie_mm.Prelude.{
  ◌≡◌, ◌∷◌, ◌+◌, none, some, true, false, refl, [], List, Option, ℕ, arith, ◌≢◌,
}

-- A trader that numbers its orders.
abbrev counting_trader : Trader
counting_trader = record {
  State = ℕ;
  submit_order_synchronously = λ price size side t. (t + 1, some ((48 + t) ∷ []));
}

abbrev grid_order : OrderSide → ℕ → Text → GridOrder
grid_order side price id = record {
  starting_side = side;
  current_side = side;
  starting_price = price;
  current_price = price;
  next_price = price;
  order_size = 5;
  total_filled = 0;
  order_in_book = true;
  order_id_in_book = some id;
}

abbrev bid : GridOrder
bid = grid_order buy 95 (codes "1")

abbrev ask : GridOrder
ask = grid_order sell 105 (codes "2")

abbrev grid : Grid
grid = record {
  cross_enabled = false;
  order_grid = bid ∷ ask ∷ [];
  best_bid = 94;
  best_ask = 106;
  lock_held = false;
}

abbrev events : List (Option OrderBook × Event)
events = (none, order_changed (codes "1") buy (some closed)) ∷ []

other_some : (i j : Text) → text_eq i j ≡ false → some i ≢ some j
other_some i j other h = cc (other, (text_eq_iff i j).1 (some-injective i j h))

bid-Holds : Holds 95 (codes "1") (codes "7") bid
bid-Holds = ((λ h. refl, λ h. refl), other_some (codes "1") (codes "7") refl)

ask-Holds : Holds 95 (codes "1") (codes "7") ask
ask-Holds = (
  (λ h. absurd (omega (arith, h)), λ h. absurd (other_some (codes "2") (codes "1") refl h)),
  other_some (codes "2") (codes "7") refl,
)

handle_events-prices_example :
    prices (handle_events counting_trader events (grid, 7)).0.order_grid ≡ 95 ∷ 105 ∷ []
handle_events-prices_example = handle_events-prices counting_trader events (grid, 7)

on_lock_acquired_submitted_example :
    look_up_order_from_grid
      (codes "7")
      (on_lock_acquired counting_trader none (codes "1") buy grid 7).0.order_grid
    ≡ some
        (record bid { current_side = sell; total_filled = 5; order_id_in_book = some (codes "7") })
unfolding look_up_order_from_grid submit_grid_order_to_exchange check_for_cross
on_lock_acquired_submitted_example =
    on_lock_acquired_submitted counting_trader none (codes "1") (codes "7") (codes "7") buy grid 7 8
      bid refl (bid-Holds, (ask-Holds, tt)) refl
