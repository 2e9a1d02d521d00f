-- ===== src/Keys/Laws.antt =====
-- Writers and readers agree on the names, and a stream's name can be taken apart again.
use faculty_auxie_mm.Prelude.{some, ◌==◌, ◌≡◌, false, [], refl, none, ap, arith}
use faculty_auxie_mm.Keys.{
  order_book_key, ◌∷◌, order_book_snapshot_key, ◌++◌, observable_key, codes, some, [], split_dots,
  stream_prefix, snapshot_prefix, join_dots, build_key, parse_key, truthy, none, from_parts,
}
use faculty_auxie_mm.Prelude.Text.{Text, split_from, codes, split_dots, join_dots}

-- No dot and at least one character: the names that the keys are built for.
abbrev pub HasNoDot : Text → Type 0
HasNoDot [] = Unit
HasNoDot (c ∷ t) = ((c == b'.') ≡ false) × HasNoDot t

abbrev pub IsName : Text → Type 0
IsName [] = ⊥
IsName (c ∷ t) = HasNoDot (c ∷ t)

split_from-name : (p : Text) → HasNoDot p → split_from p ≡ (p, [])
split_from-name [] h = refl
split_from-name (c ∷ p) h = rw (split_from-name p h.1, h.0)

split_from-append : (p s : Text) → HasNoDot p → split_from (p ++ b'.' ∷ s) ≡ (p, split_dots s)
split_from-append [] s h = refl
split_from-append (c ∷ p) s h = rw (split_from-append p s h.1, h.0)

pub join_truthy_one : (s : Text) → join_dots (truthy (some s ∷ [])) ≡ s
join_truthy_one [] = refl
join_truthy_one (c ∷ s) = refl

-- For every tenant, exchange and symbol, present or empty, the gatherer writes the deltas of an
-- order book to `stream.` and its snapshots to `stream.snapshot.`, each before the key under which
-- the magicbox caches the book and which its stream adapter builds for `orderBook`.
pub order_book_key-eq :
    (tenant exchange symbol : Text)
    → let key = observable_key tenant exchange (codes "watchOrderBook") (some symbol) in
      (order_book_key tenant exchange symbol ≡ stream_prefix ++ key)
      × (order_book_snapshot_key tenant exchange symbol ≡ snapshot_prefix ++ key)
      × (build_key exchange tenant (some symbol) (codes "orderBook") false ≡ key)
unfolding order_book_key order_book_snapshot_key observable_key build_key
order_book_key-eq tenant exchange symbol =
    (rw (join_truthy_one symbol), rw (join_truthy_one symbol), refl)

-- A key of four names, and of three where there is no symbol.
abbrev pub named_key : Text → Text → Text → Text → Text
named_key t e d s = t ++ b'.' ∷ (e ++ b'.' ∷ (d ++ b'.' ∷ s))

split_dots-four :
    (t e d s : Text)
    → HasNoDot t
    → HasNoDot e
    → HasNoDot d
    → HasNoDot s
    → split_dots (named_key t e d s) ≡ t ∷ e ∷ d ∷ s ∷ []
split_dots-four t e d s ht he hd hs = rw (
  split_from-append t (e ++ b'.' ∷ (d ++ b'.' ∷ s)) ht,
  split_from-append e (d ++ b'.' ∷ s) he,
  split_from-append d s hd,
  split_from-name s hs,
)

split_dots-three :
    (t e d : Text)
    → HasNoDot t
    → HasNoDot e
    → HasNoDot d
    → split_dots (t ++ b'.' ∷ (e ++ b'.' ∷ d)) ≡ t ∷ e ∷ d ∷ []
split_dots-three t e d ht he hd =
    rw (split_from-append t (e ++ b'.' ∷ d) ht, split_from-append e d he, split_from-name d hd)

-- For names that are not empty and hold no dot, the database service reads back from a stream's
-- name the tenant, the exchange, the data point and the symbol that it was built from, and no
-- symbol where it was built without one.
pub parse_key-observable_key :
    (t e d s : Text)
    → IsName t
    → IsName e
    → IsName d
    → IsName s
    → (parse_key (stream_prefix ++ observable_key t e d (some s))
        ≡ record { tenant = some t; exchange = some e; data_point = some d; symbol = some s })
      × (parse_key (stream_prefix ++ observable_key t e d none)
          ≡ record { tenant = some t; exchange = some e; data_point = some d; symbol = none })
unfolding parse_key observable_key
parse_key-observable_key [] e d s ht he hd hs = absurd ht
parse_key-observable_key (a ∷ t) [] d s ht he hd hs = absurd he
parse_key-observable_key (a ∷ t) (b ∷ e) [] s ht he hd hs = absurd hd
parse_key-observable_key (a ∷ t) (b ∷ e) (c ∷ d) [] ht he hd hs = absurd hs
parse_key-observable_key (a ∷ t) (b ∷ e) (c ∷ d) (f ∷ s) ht he hd hs = (
  ap from_parts (split_dots-four (a ∷ t) (b ∷ e) (c ∷ d) (f ∷ s) ht he hd hs),
  ap from_parts (split_dots-three (a ∷ t) (b ∷ e) (c ∷ d) ht he hd),
)

split_dots-five :
    (p t e d s : Text)
    → HasNoDot p
    → HasNoDot t
    → HasNoDot e
    → HasNoDot d
    → HasNoDot s
    → split_dots (p ++ b'.' ∷ named_key t e d s) ≡ p ∷ t ∷ e ∷ d ∷ s ∷ []
split_dots-five p t e d s hp ht he hd hs =
    rw (split_from-append p (named_key t e d s) hp)
      (ap (λ ps. p ∷ ps) (split_dots-four t e d s ht he hd hs))

-- From the name of a snapshot stream the database service reads the tenant `snapshot`, and takes
-- the tenant for the exchange and the exchange for the data point.
pub parse_key-snapshot :
    (t e s : Text)
    → IsName t
    → IsName e
    → IsName s
    → parse_key (order_book_snapshot_key t e s) ≡ record {
      tenant = some (codes "snapshot");
      exchange = some t;
      data_point = some e;
      symbol = some (codes "watchOrderBook");
    }
unfolding parse_key observable_key
parse_key-snapshot [] e s ht he hs = absurd ht
parse_key-snapshot (a ∷ t) [] s ht he hs = absurd he
parse_key-snapshot (a ∷ t) (b ∷ e) [] ht he hs = absurd hs
parse_key-snapshot (a ∷ t) (b ∷ e) (c ∷ s) ht he hs =
    rw ((order_book_key-eq (a ∷ t) (b ∷ e) (c ∷ s)).1) (
      ap from_parts (
        split_dots-five (codes "snapshot") (a ∷ t) (b ∷ e) (codes "watchOrderBook") (c ∷ s)
          (ground arith) ht he (ground arith) hs))
