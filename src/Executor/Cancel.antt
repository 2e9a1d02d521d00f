-- ===== src/Executor/Cancel.antt =====
-- What cancelOrder leaves in redis.
use faculty_auxie_mm.Orders.Store.{order_key}
use faculty_auxie_mm.Orders.{Order}
use faculty_auxie_mm.Prelude.Text.{Text, text_eq}
use faculty_auxie_mm.Executor.{
  Market, Redis, Retry, Text, Order, cancel_order, recorded, record_canceled, CancelOrder, text_eq,
  World, order_key, fetch_canceled,
}
use faculty_auxie_mm.Prelude.{
  ◌≡◌, if◌then◌else◌, ◌&&◌, none, some, true, false, Bool, refl, Option, arith, or_option,
}

module _ (market : Market) (redis : Redis) (retry : Retry) (tenant exchange_id : Text) where
  recorded_kept :
      (id : Text) (detail : Order) (m : market.State) (s : redis.State) (r : redis.State × Bool)
      (j : Text)
      → redis.order r.0 j
        ≡ (if r.1 && text_eq (order_key tenant id) j then some detail else redis.order s j)
      → redis.order_source r.0 j ≡ redis.order_source s j
      → redis.stream r.0 j ≡ redis.stream s j
      → let out = recorded market redis retry tenant exchange_id detail m r in
        (redis.order out.0.at_redis j ≡ (
          if text_eq (order_key tenant id) j
          then or_option out.1 (redis.order s j)
          else redis.order s j))
        × (redis.order_source out.0.at_redis j ≡ redis.order_source s j)
        × (redis.stream out.0.at_redis j ≡ redis.stream s j)
  recorded_kept id detail m s (s', true) j at_order at_source at_stream =
      (at_order, at_source, at_stream)
  recorded_kept id detail m s (s', false) j at_order at_source at_stream =
      (ground (arith, at_order), at_source, at_stream)

  record_canceled_kept :
      (id : Text) (s : redis.State) (r : market.State × Option Order) (j : Text)
      → let out = record_canceled market redis retry tenant exchange_id id s r in
        (redis.order out.0.at_redis j ≡ (
          if text_eq (order_key tenant id) j
          then or_option out.1 (redis.order s j)
          else redis.order s j))
        × (redis.order_source out.0.at_redis j ≡ redis.order_source s j)
        × (redis.stream out.0.at_redis j ≡ redis.stream s j)
  record_canceled_kept id s (m, none) j = (ground arith, refl, refl)
  record_canceled_kept id s (m, some detail) j =
      let k = order_key tenant id in
      recorded_kept id detail m s (redis.h_set k detail none s) j
        (redis.order-h_set k j detail none s)
        (ground (arith, redis.order_source-h_set k j detail none s))
        (redis.stream-h_set k j detail none s)

  -- A cancellation changes no stream and no order's source. Of the hashes it changes only the order
  -- of the id that it is asked for, to the order that it returns, and nothing where it returns none.
  pub cancel_order_recorded :
      (params : CancelOrder) (w : World market redis retry tenant exchange_id) (j : Text)
      → let out = cancel_order market redis retry tenant exchange_id params w in
        let s = w.at_redis in
        (redis.order out.0.at_redis j ≡ (
          if text_eq (order_key tenant params.order_id) j
          then or_option out.1 (redis.order s j)
          else redis.order s j))
        × (redis.order_source out.0.at_redis j ≡ redis.order_source s j)
        × (redis.stream out.0.at_redis j ≡ redis.stream s j)
  unfolding cancel_order
  cancel_order_recorded params w j =
      record_canceled_kept params.order_id w.at_redis
        (fetch_canceled market redis retry tenant exchange_id params.order_id
          (market.cancel_order params.order_id params.symbol w.at_market))
        j
