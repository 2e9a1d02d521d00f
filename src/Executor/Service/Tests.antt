-- ===== src/Executor/Service/Tests.antt =====
-- An executor for the two tenants of ExchangeService's examples, after a stop and a start.
use faculty_auxie_mm.Prelude.Dict.{keys}
use faculty_auxie_mm.Prelude.Count.{contains}
use faculty_auxie_mm.Executor.Service.Laws.{IsListening}
use faculty_auxie_mm.Executor.Service.Requests.{run_settings-handle_request}
use faculty_auxie_mm.Executor.{
  create, Command, tenant_not_found, submit_handler, SubmitOrder, CancelOrder, cancel,
}
use faculty_auxie_mm.Exchanges.Laws.{made}
use faculty_auxie_mm.Executor.Tests.{market_of, redis_memory, plain_retry, request}
use faculty_auxie_mm.Exchanges.{
  new_exchange, dict_key, Exchange, initialize_exchanges, get_exchange,
}
use faculty_auxie_mm.Exchanges.Tests.{settings, known, plain, reversed, of_A}
use faculty_auxie_mm.Executor.Service.{
  ExecutorConfiguration, Systems, handle_request, run_settings, invalidate, setup_services,
  start_services, new_server, create, contains, keys,
}
use faculty_auxie_mm.Prelude.Text.{text_Eq, codes}
use faculty_auxie_mm.Prelude.{some, true, false, ◌≡◌, ◌∷◌, ◌&&◌, none, refl, []}

abbrev stopped : ExecutorConfiguration
stopped = record { started = false; exchanges = some settings }

abbrev running : ExecutorConfiguration
running = record { started = true; exchanges = some settings }

abbrev world : Systems (market_of true) redis_memory plain_retry (codes "A") (codes "binance@spot")
world = record { at_market = 0; at_redis = record { streams = []; orders = []; sources = [] } }

run_settings-handle_request_example :
    let s' = run_settings known plain reversed (stopped ∷ running ∷ []) new_server in
    let wanted = made known plain reversed settings (dict_key (codes "A") (codes "binance@spot")) in
    IsListening s'
    × (true && contains (keys settings) (codes "A") ≡ false
        → (command : Command)
        → handle_request
            (market_of true)
            redis_memory
            plain_retry
            (codes "A")
            (codes "binance@spot")
            s'
            command
            world
          ≡ (world, some tenant_not_found))
    × (true && contains (keys settings) (codes "A") ≡ true
        → ((ex : Exchange)
            → wanted ≡ some ex
            → (command : Command)
            → let (w', a) =
                submit_handler
                  (market_of true)
                  redis_memory
                  plain_retry
                  (codes "A")
                  (codes "binance@spot")
                  true
                  command
                  world in
              handle_request
                (market_of true)
                redis_memory
                plain_retry
                (codes "A")
                (codes "binance@spot")
                s'
                command
                world
              ≡ (w', some a))
          × (wanted ≡ none
              → ((order : SubmitOrder)
                  → handle_request
                      (market_of true)
                      redis_memory
                      plain_retry
                      (codes "A")
                      (codes "binance@spot")
                      s'
                      (create order)
                      world
                    ≡ (world, none))
                × ((params : CancelOrder)
                    → handle_request
                        (market_of true)
                        redis_memory
                        plain_retry
                        (codes "A")
                        (codes "binance@spot")
                        s'
                        (cancel params)
                        world
                      ≡ (world, none))))
unfolding new_exchange
run_settings-handle_request_example =
    run_settings-handle_request known plain reversed (market_of true) redis_memory plain_retry
      (codes "A") (codes "binance@spot") (stopped ∷ []) running settings new_server world
      (λ t. refl) refl (((of_A, refl), tt), (((_, refl), tt), tt))

-- An exchange that the settings do not name
unanswered_request :
    handle_request
      (market_of true)
      redis_memory
      plain_retry
      (codes "A")
      (codes "ftx")
      (run_settings known plain reversed (running ∷ []) new_server)
      (create request)
      (record { at_market = 0; at_redis = record { streams = []; orders = []; sources = [] } })
    ≡ (
      record { at_market = 0; at_redis = record { streams = []; orders = []; sources = [] } },
      none,
    )
unfolding handle_request run_settings invalidate setup_services start_services initialize_exchanges
    get_exchange
unanswered_request = refl
