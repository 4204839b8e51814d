-- ===== src/Tests/Devices.antt =====
-- A device that reports an address, and actions on a device.
use fluxip.Base.{
  ℕ, ◌≡◌, ◌↔◌, ◌≢◌, ◌≢◌, refl, ap, inl, inr, String, true, none, some, [], ◌∷◌, ◌++◌, map, arith,
  eq_iff, In, NoRepeats, contains, or_else, distinct,
}
use fluxip.Event.{Payload, of_ip_client, of_action, AppendEventInput, StoredEvent, ok}
use fluxip.Event.Action.{
  attached, dns, traefik, ipv4, traefik_config_delivery_action_type, action_aggregate_type,
  hetzner_cloud_dns_update_action_type, ActionConfig,
}
use fluxip.Event.Execution.{ip_change}
use fluxip.Event.IpClient.{
  client_registered, ip_report_received, ip_client_aggregate_type, IpClientIpChangedData,
}
use fluxip.EventStore.{Table, append, row_of, read_stream, load_aggregate, list_aggregate_ids}
use fluxip.EventStore.Consistency.{IsConsistent}
use fluxip.EventStore.History.{empty, next, write, Reach-IsConsistent}
use fluxip.Aggregates.Action.{is_enabled, action_reducer}
use fluxip.Aggregates.IpClient.{ip_client_reducer}
use fluxip.Devices.Delivery.Targets.{IsDeliveryTo, providers_of_device_lem}
use fluxip.Devices.Delivery.{
  list_delivery_actions, providers_of_device, action_ids, action_state, delivery_of,
}
use fluxip.Devices.FanOut.{
  FanOutParams, ExecutionJob, runs, job_of, fan_out_action_executions,
  fan_out_action_executions_lem,
}
use fluxip.Devices.Settle.{
  SettleDeps, load_client, confirmed, settle, settled, settle_input, changed_by, changed_data,
  last_report,
}
use fluxip.Devices.Settle.Again.{settle-again}
use fluxip.Tests.Samples.{config, stamp}

abbrev row : String → String → String → ℕ → Payload → AppendEventInput
row id aggregate_type aggregate_id n payload = record {
  id = id;
  aggregate_type = aggregate_type;
  aggregate_id = aggregate_id;
  account_id = "A";
  expected_sequence_number = n;
  type = "t";
  source = "s";
  time = "now";
  payload = payload;
}

abbrev registered : AppendEventInput
registered = row "c1" ip_client_aggregate_type "D" 1 (
    of_ip_client (
      client_registered (record {
        ip_client_id = "D";
        account_id = "A";
        label = "door";
        credential_hash = "h";
        registered_at = "t";
      })))

abbrev reported : AppendEventInput
reported = row "c2" ip_client_aggregate_type "D" 2 (
    of_ip_client (
      ip_report_received
        (record { reported_ipv4 = some "192.0.2.1"; reported_ipv6 = none; received_at = "t" })))

abbrev action_on_device : String → String → String → ActionConfig → AppendEventInput
action_on_device id action_id action_type config = row id action_aggregate_type action_id 1 (
    of_action (
      attached (record {
        action_id = action_id;
        account_id = "A";
        ip_client_id = "D";
        action_type = action_type;
        address_families = ipv4 ∷ [];
        config = config;
        attached_at = "t";
      })))

abbrev device : Table
device = (append reported (append registered []).1).1

device-IsConsistent : IsConsistent device
device-IsConsistent = Reach-IsConsistent (
    next (next empty (write registered (omega arith) (omega arith)))
      (write reported (omega arith) (unfold append read_stream row_of in omega arith)))

abbrev change : IpClientIpChangedData
change = record {
  previous_ipv4 = none;
  new_ipv4 = some "192.0.2.1";
  previous_ipv6 = none;
  new_ipv6 = none;
  settled_at = "2026-01-01T00:00:00.000Z";
}

abbrev deps : SettleDeps
deps = record { config = config; account_id = "A"; ip_client_id = "D"; has_snapshots = true }

change-confirmed : confirmed (load_client "A" "D" device) (stamp "c3").now ≡ some change
unfolding confirmed load_client append read_stream load_aggregate row_of changed_by changed_data
    last_report ip_client_reducer
change-confirmed = refl

device-new_id : (x : StoredEvent) → In x device → x.id ≢ (stamp "c3").ulid
unfolding append row_of
device-new_id x (inl e) q = ground (arith, eq_iff "c1" "c3", ap (λ (r : StoredEvent). r.id) e)
device-new_id x (inr (inl e)) q = ground (arith, eq_iff "c2" "c3", ap (λ (r : StoredEvent). r.id) e)
device-new_id x (inr (inr i)) q = elim i [ ]

device-own :
    (x : StoredEvent)
    → In x device
    → x.aggregate_type ≡ ip_client_aggregate_type
    → x.aggregate_id ≡ deps.ip_client_id
    → x.account_id ≡ deps.account_id
unfolding append row_of
device-own x (inl e) t a = ap (λ (r : StoredEvent). r.account_id) e
device-own x (inr (inl e)) t a = ap (λ (r : StoredEvent). r.account_id) e
device-own x (inr (inr i)) t a = elim i [ ]

settle-again_example :
    let before = load_client "A" "D" device in
    let row = row_of (settle_input deps before (stamp "c3") change) in
    let after = device ++ row ∷ [] in
    let known_after = (load_client "A" "D" after).state in
    (settle deps (stamp "c3") (λ a. a) (λ t. t) device ≡ (
      ok (
          some (
            settled deps before.state
              (record { v4 = some "192.0.2.1"; v6 = none })
              row
              after
              (λ a. a))),
      after,
    ))
    × (known_after.last_known_ipv4 ≡ or_else (some "192.0.2.1") before.state.last_known_ipv4)
    × (known_after.last_known_ipv6 ≡ or_else none before.state.last_known_ipv6)
    × (settle deps (stamp "c4") (λ a. a) (λ t. t) after ≡ (ok none, after))
settle-again_example =
    settle-again deps device (stamp "c3") change (stamp "c4") (λ a. a) (λ a. a) device-IsConsistent
      device-new_id device-own change-confirmed

-- The device with two delivery actions to one provider and a DNS action.
abbrev actions : Table
actions =
    row_of (
      action_on_device "a1" "X" traefik_config_delivery_action_type
        (traefik (record { traefik_provider_id = "P"; group = "g" })))
    ∷ row_of (
        action_on_device "a2" "Y" traefik_config_delivery_action_type
          (traefik (record { traefik_provider_id = "P"; group = "h" })))
    ∷ row_of (
        action_on_device "a3" "Z" hetzner_cloud_dns_update_action_type
          (dns (record { provider_credential_id = "C"; zone = "z"; record_name = "r" })))
    ∷ []

providers_of_device_lem_example :
    NoRepeats (providers_of_device "A" "D" actions)
    × ((contains (providers_of_device "A" "D" actions) "P" ≡ true) ↔ (
        (action_id : String) × (contains (action_ids "A" actions) action_id ≡ true)
        × IsDeliveryTo "D" "P" (action_state actions "A" action_id)))
providers_of_device_lem_example = providers_of_device_lem "A" "D" "P" actions

abbrev cause : FanOutParams
cause = record {
  account_id = "A";
  ip_client_id = "D";
  causation_event_id = "c3";
  triggered_by = ip_change;
  ip_values = record { v4 = some "192.0.2.1"; v6 = none };
}

fan_out_action_executions_lem_example :
    let jobs = fan_out_action_executions cause (λ a. a) actions in
    let acted = map (λ (j : ExecutionJob). j.action_id) jobs in
    let state = action_state actions "A" "Z" in
    NoRepeats acted
    × ((contains acted "Z" ≡ true) ↔ (
        (contains (action_ids "A" actions) "Z" ≡ true)
        × (state.ip_client_id ≡ some "D")
        × (state.status ≡ is_enabled)
        × (state.action_type ≢ some traefik_config_delivery_action_type)))
    × (map (λ (j : ExecutionJob). j.job_id) jobs
        ≡ map
            (λ (j : ExecutionJob). j.job_id)
            (fan_out_action_executions cause (λ a. "again") actions))
fan_out_action_executions_lem_example =
    fan_out_action_executions_lem cause (λ a. a) (λ a. "again") actions "Z"

-- One provider for the two delivery actions, one job for the other action.
actions-follow :
    (providers_of_device "A" "D" actions ≡ "P" ∷ [])
    × (map (λ (j : ExecutionJob). j.job_id) (fan_out_action_executions cause (λ a. a) actions)
        ≡ "exec-c3-Z" ∷ [])
unfolding providers_of_device list_delivery_actions fan_out_action_executions list_aggregate_ids
    action_state load_aggregate read_stream row_of runs job_of delivery_of action_reducer distinct
actions-follow = (refl, refl)
