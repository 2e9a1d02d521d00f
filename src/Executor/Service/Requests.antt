-- ===== src/Executor/Service/Requests.antt =====
-- What the executor (packages/executor/src/index.ts) answers after its settings have changed.
use faculty_auxie_mm.Executor.Service.Laws.{
  IsListening, run_settings-IsListening, run_settings-last, lookup-invalidate,
}
use faculty_auxie_mm.Exchanges.{Exchange, ExchangeClass, TenantExchanges, dict_key, get_exchange}
use faculty_auxie_mm.Exchanges.Laws.{AllTenantsMade, made, initialize_exchanges-get_exchange}
use faculty_auxie_mm.Executor.{
  Command, Market, Redis, Retry, create, cancel, submit_handler, tenant_not_found, SubmitOrder,
  CancelOrder,
}
use faculty_auxie_mm.Executor.Service.{
  ExecutorConfiguration, Server, Systems, run_settings, handle_request,
}
use faculty_auxie_mm.Prelude.Count.{contains}
use faculty_auxie_mm.Prelude.Dict.{Dict, keys, lookup}
use faculty_auxie_mm.Prelude.Text.{Text, text_Eq}
use faculty_auxie_mm.Prelude.{
  ◌≡◌, ◌∷◌, ◌++◌, ◌∙◌, [], none, some, true, false, List, Option, refl, ap, ◌&&◌,
}

module _ (classes : Text → Option ExchangeClass) (ftx : ExchangeClass)
    (decrypt : Text → Option Text) where
  module _ (market : Market) (redis : Redis) (retry : Retry) (tenant exchange_id : Text) where
    unserved :
        (s : Server) (command : Command) (w : Systems market redis retry tenant exchange_id)
        → lookup tenant s.services ≡ none
        → handle_request market redis retry tenant exchange_id s command w
          ≡ (w, some tenant_not_found)
    unfolding handle_request submit_handler
    unserved s command w h = rw h refl

    served :
        (s : Server) (command : Command) (w : Systems market redis retry tenant exchange_id)
        (exchanges : Dict Text Exchange) (ex : Exchange)
        → lookup tenant s.services ≡ some exchanges
        → get_exchange exchange_id tenant exchanges ≡ some ex
        → let (w', a) = submit_handler market redis retry tenant exchange_id true command w in
          handle_request market redis retry tenant exchange_id s command w ≡ (w', some a)
    unfolding handle_request
    served s command w exchanges ex h g = rw (h, g) refl

    unanswered :
        (s : Server) (w : Systems market redis retry tenant exchange_id)
        (exchanges : Dict Text Exchange)
        → lookup tenant s.services ≡ some exchanges
        → get_exchange exchange_id tenant exchanges ≡ none
        → ((order : SubmitOrder)
            → handle_request market redis retry tenant exchange_id s (create order) w ≡ (w, none))
          × ((params : CancelOrder)
              → handle_request market redis retry tenant exchange_id s (cancel params) w
                ≡ (w, none))
    unfolding handle_request
    unanswered s w exchanges h g = (λ order. rw (h, g) refl, λ params. rw (h, g) refl)

    -- After any settings, one set after the other, the executor listens to the commands of the
    -- tenants that it serves, if it did before. A request for a tenant that the newest settings do
    -- not name, or while they are not started, is refused. For a tenant that they name, an exchange
    -- that they make is handed the request, and one that they do not make leaves the creation or
    -- cancellation of an order without an answer. This is for newest settings whose exchanges can all be
    -- made: each has a class and secrets that can be decrypted, and a url for tests where
    -- setSandboxMode is called.
    pub run_settings-handle_request :
        (cs : List ExecutorConfiguration) (c : ExecutorConfiguration) (exchanges : TenantExchanges)
        (s : Server) (w : Systems market redis retry tenant exchange_id)
        → IsListening s
        → c.exchanges ≡ some exchanges
        → AllTenantsMade classes ftx decrypt exchanges
        → let s' = run_settings classes ftx decrypt (cs ++ c ∷ []) s in
          let wanted = made classes ftx decrypt exchanges (dict_key tenant exchange_id) in
          IsListening s'
          × (c.started && contains (keys exchanges) tenant ≡ false
              → (command : Command)
              → handle_request market redis retry tenant exchange_id s' command w
                ≡ (w, some tenant_not_found))
          × (c.started && contains (keys exchanges) tenant ≡ true
              → ((ex : Exchange)
                  → wanted ≡ some ex
                  → (command : Command)
                  → let (w', a) =
                      submit_handler market redis retry tenant exchange_id true command w in
                    handle_request market redis retry tenant exchange_id s' command w
                    ≡ (w', some a))
                × (wanted ≡ none
                    → ((order : SubmitOrder)
                        → handle_request market redis retry tenant exchange_id s' (create order) w
                          ≡ (w, none))
                      × ((params : CancelOrder)
                          → handle_request market redis retry tenant exchange_id s'
                              (cancel params)
                              w
                            ≡ (w, none))))
    unfolding get_exchange
    run_settings-handle_request cs c exchanges s w h e made_all =
        let before : Server = run_settings classes ftx decrypt cs s in
        let s' : Server = run_settings classes ftx decrypt (cs ++ c ∷ []) s in
        let (done, got) =
          initialize_exchanges-get_exchange classes ftx decrypt exchanges [] made_all exchange_id
            tenant in
        let found =
          ap (λ server. lookup tenant server.services)
            (run_settings-last classes ftx decrypt cs c s)
          ∙ lookup-invalidate classes ftx decrypt c exchanges before tenant e done in
        (
          run_settings-IsListening classes ftx decrypt (cs ++ c ∷ []) s h,
          λ absent command. unserved s' command w (rw absent at found),
          λ present. (
            λ ex wanted command. served s' command w _ ex (rw present at found) (got ∙ wanted),
            λ unwanted. unanswered s' w _ (rw present at found) (got ∙ unwanted),
          ),
        )
