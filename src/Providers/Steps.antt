-- ===== src/Providers/Steps.antt =====
-- What the handlers of backend/src/adapters/http/routes/traefik-providers.ts share.
use fluxip.Base.{String, Bool, List, ◌∷◌, filter, ◌==◌}
use fluxip.Event.{StoredEvent, Result, ok, err, Stamp}
use fluxip.Event.Provider.{TraefikProviderEvent, token_issued}
use fluxip.EventStore.{Table}
use fluxip.ProviderStore.{append_alone}
use fluxip.Devices.Delivery.{DeliveryAction, list_delivery_actions}
use fluxip.Providers.{ProviderDeps, NewToken, Termination, World, Reply, no_content}

abbrev pub delivers_to : String → DeliveryAction → Bool
delivers_to provider_id action = action.traefik_provider_id == provider_id

unfoldable pub deliveries : ProviderDeps → String → World → List DeliveryAction
deliveries deps provider_id w =
    filter (delivers_to provider_id) (list_delivery_actions deps.account_id w.table)

-- The reply once the event is stored, or the error that is thrown.
unfoldable pub then_reply :
    Reply → List Termination → Result StoredEvent × Table → Result Reply × World
then_reply reply terminated (err f, table) =
    (err f, record { table = table; terminated = terminated })
then_reply reply terminated (ok _, table) =
    (ok reply, record { table = table; terminated = terminated })

-- The sessions end only once the event is stored.
unfoldable pub then_terminate :
    Termination → World → Result StoredEvent × Table → Result Reply × World
then_terminate end w (err f, table) = (err f, record w { table = table })
then_terminate end w (ok _, table) =
    (ok no_content, record { table = table; terminated = end ∷ w.terminated })

unfoldable pub store_append :
    ProviderDeps → String → TraefikProviderEvent → Stamp → World → Result StoredEvent × Table
store_append deps provider_id event stamp w =
    append_alone deps.config deps.account_id provider_id event stamp w.table

unfoldable pub issued_event : NewToken → TraefikProviderEvent
issued_event token = token_issued (record {
  token_id = token.token_id;
  token_hash = token.hash;
  last4 = token.last4;
  issued_at = token.now;
})
