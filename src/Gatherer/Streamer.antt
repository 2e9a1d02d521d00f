-- ===== src/Gatherer/Streamer.antt =====
-- DataStreamerService (packages/gatherer/src/services/datastreamer-service.ts): one subject and one
-- loop for each key. A subject is known by its number. The exchange is a ccxt object: which methods
-- it has, and what its table `has` says, are parameters.
pub mod Methods
pub mod Laws
pub mod Tests
use faculty_auxie_mm.Keys.{get_observable_key}
use faculty_auxie_mm.Gatherer.Loop.{Param}
use faculty_auxie_mm.Prelude.Dict.{Dict, insert, lookup}
use faculty_auxie_mm.Prelude.Text.{Text, replace_first, codes, text_eq, text_Eq}
use faculty_auxie_mm.Prelude.{
  ◌∷◌, ◌++◌, if◌then◌else◌, ◌+◌, ◌&&◌, none, some, true, false, [], List, Option, Bool, ℕ, not, any,
  or_default, is_some,
}

pub record Exchange : Type 0 where
  pub tenant : Text
  pub id : Text
  pub full_name : Text
  pub method : Text → Bool
  pub has : Text → Bool

-- A started loop: which subject it feeds, what it calls and how often.
pub record StartedLoop : Type 0 where
  pub subject : ℕ
  pub action : Text
  pub delay : ℕ
  pub params : List Param

pub record Streamer : Type 0 where
  pub observables : Dict Text ℕ
  pub next_subject : ℕ
  pub should_run : Bool
  pub loops : List StartedLoop
  pub subscriptions : List ℕ

-- `action.replace('watch', 'fetch')`
abbrev pub fetch_name : Text → Text
fetch_name action = replace_first (codes "watch") (codes "fetch") action

-- the action that createObservable settles on, and whether the exchange offers it
unfoldable pub chosen_action : Text → Exchange → Bool → Text
chosen_action action exchange fetch_fallback =
    if not (exchange.method action) && fetch_fallback then fetch_name action else action

unfoldable pub is_offered : Text → Exchange → Bool
is_offered action exchange = exchange.method action && exchange.has action

-- DataStreamerService.createObservable
unfoldable pub create_observable :
    Text → Text → Exchange → Option Bool → Option ℕ → List Param → Streamer → Option ℕ × Streamer
unfolding chosen_action is_offered
create_observable observable_key action exchange fetch_fallback fetch_delay params s =
    let action' = chosen_action action exchange (or_default fetch_fallback true) in
    let subject = or_default (lookup observable_key s.observables) s.next_subject in
    if is_offered action' exchange
    then (
      some subject,
      record s {
        next_subject =
            if is_some (lookup observable_key s.observables)
            then s.next_subject
            else s.next_subject + 1;
        should_run = true;
        loops =
            record {
              subject = subject;
              action = action';
              delay = or_default fetch_delay 3000;
              params = params;
            }
            ∷ s.loops;
      },
    )
    else (none, s)

abbrev pub orders_keys : List Text
orders_keys =
    codes "watchClosedOrders"
    ∷ codes "watchOpenOrders"
    ∷ codes "fetchClosedOrders"
    ∷ codes "fetchOpenOrders"
    ∷ []

unfoldable pub data_point_key : Text → Text
data_point_key action = if any (text_eq action) orders_keys then codes "watchOrders" else action

unfoldable pub key_of : Text → Exchange → Option Text → Text
unfolding data_point_key get_observable_key
key_of action exchange symbol =
    get_observable_key (data_point_key action) exchange.tenant exchange.id (symbol ∷ [])

-- a subject that was created is kept under its key
abbrev pub register : Text → Option ℕ × Streamer → Option ℕ × Streamer
register key (none, s) = (none, s)
register key (some subject, s) =
    (some subject, record s { observables = insert key subject s.observables })

-- a subject that is there is returned, and what was created otherwise
abbrev pub found_or : Option ℕ × Streamer → Streamer → Option ℕ → Option ℕ × Streamer
found_or created s (some subject) = (some subject, s)
found_or created s none = created

-- DataStreamerService.getObservable
unfoldable pub get_observable :
    Text
    → Exchange
    → Option Bool
    → Option ℕ
    → Option Text
    → List Param
    → Streamer
    → Option ℕ × Streamer
unfolding create_observable
get_observable action exchange fetch_fallback fetch_delay symbol params s =
    let observable_key = key_of action exchange symbol in
    let created =
      register observable_key
        (create_observable observable_key action exchange fetch_fallback fetch_delay params s) in
    found_or created s (lookup observable_key s.observables)

-- patchObservable: every subscription is remembered
unfoldable pub subscribe : ℕ → Streamer → Streamer
subscribe subject s = record s { subscriptions = s.subscriptions ++ subject ∷ [] }

-- DataStreamerService.unsubscribeAll
unfoldable pub unsubscribe_all : Streamer → Streamer
unsubscribe_all s = record s { subscriptions = []; should_run = false; observables = [] }

abbrev pub new_streamer : Streamer
new_streamer = record {
  observables = [];
  next_subject = 0;
  should_run = true;
  loops = [];
  subscriptions = [];
}
