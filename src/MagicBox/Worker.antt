-- ===== src/MagicBox/Worker.antt =====
-- A worker of the magicbox (packages/magicbox/src/worker.ts): the subscriptions of its workplan, and
-- how its plugins are told. What a plugin does with an event is a parameter; it may throw.
pub mod Laws
pub mod Tests
use faculty_auxie_mm.Keys.{observable_key}
use faculty_auxie_mm.MagicBox.Cache.{DataStreamService}
use faculty_auxie_mm.MagicBox.Handlers.{get_observable}
use faculty_auxie_mm.Prelude.Text.{Text, codes, text_eq}
use faculty_auxie_mm.Prelude.{
  ◌∷◌, ◌++◌, [], none, some, true, false, List, Option, Bool, if◌then◌else◌,
}

-- class MagicBoxSubscription of packages/utils/src/interfaces/plugin.ts
pub record MagicBoxSubscription : Type 0 where
  pub symbol : Text
  pub exchange_id : Text
  pub data_point : Text
  pub is_public : Bool

abbrev pub tenant_id : Text → MagicBoxSubscription → Text
tenant_id tenant r = if r.is_public then codes "FGPUBLIC" else tenant

-- The key of the subject that a case of the switch subscribes to.
unfoldable pub watched_key : Text → MagicBoxSubscription → Option Text
watched_key tenant r =
    if text_eq r.data_point (codes "watchOrderBook")
    then some
        (observable_key (tenant_id tenant r) r.exchange_id (codes "watchOrderBook") (some r.symbol))
    else if text_eq r.data_point (codes "watchOrders")
    then some
        (observable_key (tenant_id tenant r) r.exchange_id (codes "watchOrders") (some r.symbol))
    else if text_eq r.data_point (codes "watchOHLCV")
    then some
        (observable_key (tenant_id tenant r) r.exchange_id (codes "watchOHLCV") (some r.symbol))
    else if text_eq r.data_point (codes "watchBalance")
    then some (observable_key (tenant_id tenant r) r.exchange_id (codes "watchBalance") none)
    else none

-- `readers` are the loops that were started, `subscribers` what subscribes to which subject.
pub record Subscribed (V : Type 0) : Type 0 where
  pub service : DataStreamService V
  pub readers : List Text
  pub subscribers : List (Text × MagicBoxSubscription)

module _ {V : Type 0} where
  abbrev pub nothing_subscribed : DataStreamService V → Subscribed V
  nothing_subscribed s = record { service = s; readers = []; subscribers = [] }

  abbrev pub with_subject :
      Text
      → MagicBoxSubscription
      → List Text
      → List (Text × MagicBoxSubscription)
      → DataStreamService V × Bool
      → Subscribed V
  with_subject key r readers subscribers (s, is_new) = record {
    service = s;
    readers = if is_new then readers ++ key ∷ [] else readers;
    subscribers = subscribers ++ (key, r) ∷ [];
  }

  abbrev pub subscribe_key : Option Text → MagicBoxSubscription → Subscribed V → Subscribed V
  subscribe_key none r w = w
  subscribe_key (some key) r w =
      with_subject key r w.readers w.subscribers (get_observable key w.service)

  -- The loop over the subscriptions
  unfoldable pub subscribe_all : Text → List MagicBoxSubscription → Subscribed V → Subscribed V
  subscribe_all tenant [] w = w
  subscribe_all tenant (r ∷ records) w =
      subscribe_all tenant records (subscribe_key (watched_key tenant r) r w)

pub record Event (Value : Type 0) : Type 0 where
  pub symbol : Text
  pub exchange_id : Text
  pub data_point : Text
  pub value_changed : Value

module _ {Plugin Value : Type 0} (handle : Event Value → Plugin → Plugin × Bool) where
  -- The plugins get an event one after the other, until one throws.
  unfoldable pub handle_all : Event Value → List Plugin → List Plugin
  handle_all event [] = []
  handle_all event (p ∷ plugins) =
      let (p', goes_on) = handle event p in
      let rest = handle_all event plugins in if goes_on then p' ∷ rest else p' ∷ plugins

  -- notifyPlugins of a subscription
  unfoldable pub notify_plugins : MagicBoxSubscription → Value → List Plugin → List Plugin
  notify_plugins r value_changed plugins =
      handle_all
        (record {
          symbol = r.symbol;
          exchange_id = r.exchange_id;
          data_point = r.data_point;
          value_changed = value_changed;
        })
        plugins
