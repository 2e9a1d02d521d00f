-- ===== src/Web/OrderBookTable/Laws.antt =====
-- The table of an order book (packages/web/src/components/trade/OrderBookTable.js) and the gatherer.
use mathlib.Core.List.{reverse, reverse-reverse}
use faculty_auxie_mm.Web.OrderBookTable.{BookTable, change_book, update_order_book, rows}
use faculty_auxie_mm.Web.OrderBookTable.Sides.{
  IsSame, change_side-IsSame, sort_down-bids, sort_down-asks,
}
use faculty_auxie_mm.Replication.Sync.{IsWellFormed}
use faculty_auxie_mm.Gatherer.Feed.{Tick, deltas_of}
use faculty_auxie_mm.Book.Message.{Deltas}
use faculty_auxie_mm.Book.Lodash.{Lodash}
use faculty_auxie_mm.Book.{OrderBook, Level, level_Eq, ask_key, bid_key}
use faculty_auxie_mm.Prelude.Text.{Text}
use faculty_auxie_mm.Web.ActiveOrderTable.{text_ltb}
use faculty_auxie_mm.Web.ActiveOrderTable.Cells.{text_ltb_asymm, text_ltb_trans}
use faculty_auxie_mm.Prelude.{
  ◌≡◌, ◌∷◌, [], some, true, refl, List, take, arith, false, Bool-cases, inl, inr,
}

-- The stream of deltas between two books: each has a higher id, and is what the gatherer writes.
pub data Written (l : Lodash Level) (symbol : Text)
    : Text → OrderBook → List (Text × Deltas) → Text → OrderBook → Type 0 where
  nothing : {id : Text} {b : OrderBook} → Written l symbol id b [] id b
  next :
      {last id' : Text} {b b' : OrderBook} {messages : List (Text × Deltas)} (id : Text) (t : Tick)
      → text_ltb last id ≡ true
      → IsWellFormed t.book
      → Written l symbol id t.book messages id' b'
      → Written l symbol last b ((id, deltas_of l symbol b t) ∷ messages) id' b'

text_ltb_self : (s : Text) → text_ltb s s ≡ false
text_ltb_self [] = refl
text_ltb_self (c ∷ s) = ground (arith, text_ltb_self s)

text_ltb-between :
    (last first id : Text)
    → text_ltb last first ≡ false
    → text_ltb last id ≡ true
    → text_ltb first id ≡ true
text_ltb-between last first id le above = elim (Bool-cases (text_ltb first id)) [
  | inl behind ↦ behind
  | inr not_behind ↦ absurd (ground (arith, above, text_ltb_trans id first last not_behind le))
]

module _ (l : Lodash Level) (symbol : Text) where
  -- The table holds the levels of a book, in any order.
  pub record HoldsBook (id : Text) (b : OrderBook) (t : BookTable) : Type 0 where
    pub asks_same : IsSame t.asks b.asks
    pub bids_same : IsSame t.bids b.bids
    pub last_is : t.last_order_book ≡ id
    pub well_formed : IsWellFormed b

  change_book-HoldsBook :
      {last id : Text} {b b' : OrderBook} {messages : List (Text × Deltas)} (first : Text)
      (t : BookTable)
      → Written l symbol last b messages id b'
      → text_ltb last first ≡ false
      → HoldsBook last b t
      → HoldsBook id b' (change_book first messages t)
  unfolding change_book deltas_of
  change_book-HoldsBook first t nothing le h = h
  change_book-HoldsBook first t (next i tick above wf rest) le h =
      let behind = text_ltb-between _ first i le above in
      rw behind (
        change_book-HoldsBook first _ rest (text_ltb_asymm first i behind) (record {
          asks_same =
              change_side-IsSame l ask_key _ tick.book.asks t.asks h.well_formed.asks_rise
                wf.asks_rise h.asks_same;
          bids_same =
              change_side-IsSame l bid_key _ tick.book.bids t.bids h.well_formed.bids_fall
                wf.bids_fall h.bids_same;
          last_is = refl;
          well_formed = wf;
        }))

  -- A table that holds a book is brought, by any messages that the gatherer wrote since and no newer
  -- snapshot, to the last of their books: bids and asks from the highest price down, with the twenty
  -- best of each in the rows. All books are well-formed, and the ids of the messages increase as texts,
  -- which is how the code compares them.
  pub update_order_book-rows :
      {last id : Text} {b b' : OrderBook} {messages : List (Text × Deltas)} (t : BookTable)
      (snapshot : Text × OrderBook)
      → Written l symbol last b messages id b'
      → HoldsBook last b t
      → text_ltb last snapshot.0 ≡ false
      → let t' = update_order_book true true (some snapshot) (some messages) t in
        (t'.asks ≡ reverse b'.asks)
        × (t'.bids ≡ b'.bids)
        × (t'.last_order_book ≡ id)
        × (rows t' ≡ (reverse (take 20 b'.asks), take 20 b'.bids))
  unfolding update_order_book rows
  update_order_book-rows {last} {b'} t snapshot w h old =
      let c = change_book-HoldsBook t.last_order_book t w (rw (h.last_is) (text_ltb_self last)) h in
      let asks = sort_down-asks _ _ c.well_formed.asks_rise c.asks_same in
      let bids = sort_down-bids _ _ c.well_formed.bids_fall c.bids_same in
      let kept : text_ltb t.last_order_book snapshot.0 ≡ false = rw (h.last_is) old in
      rw (kept, asks, bids) (refl, refl, c.last_is, rw (reverse-reverse b'.asks) refl)
