-- ===== src/MagicBox/Grid/Fills.antt =====
-- What a filled order of the grid is replaced by.
use faculty_auxie_mm.Book.{OrderBook}
use mathlib.Core.Option.{some-injective}
use faculty_auxie_mm.Orders.{OrderSide}
use faculty_auxie_mm.Prelude.Text.{Text, text_eq, text_eq_iff}
use faculty_auxie_mm.MagicBox.Grid.{
  look_up_order_from_grid, Text, modify_order_in_grid, GridOrder, OrderSide, text_eq, Option,
  modified, Trader, OrderBook, on_lock_acquired, Grid, submit_grid_order_to_exchange, opposite,
  submitted,
}
use faculty_auxie_mm.Prelude.{
  ◌≡◌, ◌≢◌, ◌∷◌, if◌then◌else◌, ◌==◌, ◌+◌, ◌↔◌, none, some, true, false, [], inl, inr, List, ℕ,
  arith, All, Bool-cases, ==_iff, Option-cases, ◌∙◌, refl, Option, ap, sym,
}

-- The orders of the grid stand at a price exactly where they have an id, and none has another id.
abbrev pub Holds : ℕ → Text → Text → GridOrder → Type 0
Holds p id fresh o =
    ((o.current_price ≡ p) ↔ (o.order_id_in_book ≡ some id)) × (o.order_id_in_book ≢ some fresh)

price_differs : (o : GridOrder) (p : ℕ) → (o.current_price == p) ≡ false → o.current_price ≢ p
price_differs o p h same = cc (h, (==_iff o.current_price p).1 same)

-- Of two different ids one at most is looked for.
other_id :
    (i id j : Text) (later : Option GridOrder) (o : GridOrder)
    → i ≢ id
    → (if text_eq i j then some o else if text_eq id j then none else later)
      ≡ (if text_eq id j then none else if text_eq i j then some o else later)
other_id i id j later o differs = elim (Bool-cases (text_eq i j)) [
  | inl is ↦ elim (Bool-cases (text_eq id j)) [
    | inl also ↦ absurd (differs ((text_eq_iff i j).0 is ∙ sym ((text_eq_iff id j).0 also)))
    | inr other ↦ rw (is, other) refl
  ]
  | inr other ↦ rw other refl
]

look_up-modify :
    (p : ℕ) (id new j : Text) (side : OrderSide) (next : ℕ) (os : List GridOrder)
    → All (Holds p id new) os
    → text_eq new j ≡ false
    → look_up_order_from_grid j (modify_order_in_grid p side p next true (some new) os)
      ≡ (if text_eq id j then none else look_up_order_from_grid j os)
unfolding look_up_order_from_grid modify_order_in_grid
look_up-modify p id new j side next [] h other = ground arith
look_up-modify p id new j side next (o ∷ os) h other =
    let rest = look_up-modify p id new j side next os h.1 other in
    elim (Bool-cases (o.current_price == p)) [
      | inl is ↦
          let has_id = h.0.0.0 ((==_iff o.current_price p).0 is) in
          rw (is, other, rest, has_id, look_up_order_from_grid) (ground arith)
      | inr at_other ↦ elim (Option-cases o.order_id_in_book) [
        | inl no_id ↦ rw (at_other, no_id, look_up_order_from_grid, rest) refl
        | inr (i, has_id) ↦
            let differs : i ≢ id =
              λ same. price_differs o p at_other (h.0.0.1 (has_id ∙ ap some same)) in
            rw (at_other, has_id, look_up_order_from_grid, at_other, rest)
              (other_id i id j (look_up_order_from_grid j os) o differs)
      ]
    ]

look_up_absent :
    (p : ℕ) (id new : Text) (os : List GridOrder)
    → All (Holds p id new) os
    → look_up_order_from_grid new os ≡ none
unfolding look_up_order_from_grid
look_up_absent p id new [] h = refl
look_up_absent p id new (o ∷ os) h = elim (Option-cases o.order_id_in_book) [
  | inl no_id ↦ rw (no_id, look_up_order_from_grid) (look_up_absent p id new os h.1)
  | inr (i, has_id) ↦ elim (Bool-cases (text_eq i new)) [
    | inl is ↦ absurd (h.0.1 (has_id ∙ ap some ((text_eq_iff i new).0 is)))
    | inr other ↦ rw (has_id, look_up_order_from_grid, other) (look_up_absent p id new os h.1)
  ]
]

look_up-modify_new :
    (p : ℕ) (id new : Text) (side : OrderSide) (next : ℕ) (os : List GridOrder) (o : GridOrder)
    → All (Holds p id new) os
    → look_up_order_from_grid id os ≡ some o
    → look_up_order_from_grid new (modify_order_in_grid p side p next true (some new) os)
      ≡ some (modified side p next true (some new) o)
unfolding look_up_order_from_grid modify_order_in_grid
look_up-modify_new p id new side next [] o h found = cc
look_up-modify_new p id new side next (x ∷ os) o h found =
    elim (Bool-cases (x.current_price == p)) [
      | inl is ↦
          let has_id = h.0.0.0 ((==_iff x.current_price p).0 is) in
          let self = (text_eq_iff id id).1 refl in
          let same = rw (has_id, look_up_order_from_grid, self) at found in
          let new_self = (text_eq_iff new new).1 refl in
          rw (is, look_up_order_from_grid, new_self, is)
            (ap (λ y. some (modified side p next true (some new) y)) (some-injective x o same))
      | inr at_other ↦ elim (Option-cases x.order_id_in_book) [
        | inl no_id ↦
            rw (at_other, no_id, look_up_order_from_grid)
              (look_up-modify_new p id new side next os o h.1
                (rw (no_id, look_up_order_from_grid) at found))
        | inr (i, has_id) ↦
            let not_new : text_eq i new ≡ false = elim (Bool-cases (text_eq i new)) [
              | inl is ↦ absurd (h.0.1 (has_id ∙ ap some ((text_eq_iff i new).0 is)))
              | inr other ↦ other
            ] in
            let not_id : text_eq i id ≡ false = elim (Bool-cases (text_eq i id)) [
              | inl is ↦ absurd (
                  price_differs x p at_other (h.0.0.1 (has_id ∙ ap some ((text_eq_iff i id).0 is))))
              | inr other ↦ other
            ] in
            rw (at_other, has_id, look_up_order_from_grid, not_new)
              (look_up-modify_new p id new side next os o h.1
                (rw (has_id, look_up_order_from_grid, not_id) at found))
      ]
    ]

module _ (trader : Trader) (book : Option OrderBook) where
  -- A filled order of the grid for which a new one is submitted: looking the new order's id up finds
  -- the filled order with the side opposite to the filled one's, its starting price as the next one, and its size
  -- added to what is filled in all, its old id finds nothing, and
  -- every other id finds what it found before. This is for a grid where an order stands at the filled
  -- order's price exactly where it has the filled order's id, and the new id is not in use.
  pub on_lock_acquired_submitted :
      (id new j : Text) (side : OrderSide) (g : Grid) (t u : trader.State) (o : GridOrder)
      → look_up_order_from_grid id g.order_grid ≡ some o
      → All (Holds o.current_price id new) g.order_grid
      → submit_grid_order_to_exchange trader book o.current_price o.order_size (opposite side) g t
        ≡ (u, submitted new)
      → look_up_order_from_grid j (on_lock_acquired trader book id side g t).0.order_grid ≡ (
          if text_eq new j
          then some (record {
            starting_side = o.starting_side;
            current_side = opposite side;
            starting_price = o.starting_price;
            current_price = o.current_price;
            next_price = o.starting_price;
            order_size = o.order_size;
            total_filled = o.total_filled + o.order_size;
            order_in_book = true;
            order_id_in_book = some new;
          })
          else if text_eq id j
          then none
          else look_up_order_from_grid j g.order_grid)
  unfolding on_lock_acquired
  on_lock_acquired_submitted id new j side g t u o found h sent =
      let p = o.current_price in
      let os = g.order_grid in
      rw (found, on_lock_acquired, sent)
        (elim (Bool-cases (text_eq new j)) [
          | inl is ↦
              rw (is, sym ((text_eq_iff new j).0 is))
                (look_up-modify_new p id new (opposite side) o.starting_price os o h found)
          | inr other ↦
              rw other (look_up-modify p id new j (opposite side) o.starting_price os h other)
        ])
