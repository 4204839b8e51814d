-- ===== src/Lib.antt =====
-- FluxIP: the event-sourced core of the backend, the requests and jobs that write its events, its
-- agent sessions and its firewall updates.
--
-- The program. Devices ("IP clients") report their addresses over HTTP. Reports are events of a
-- stream; after a quiet window the debounce worker confirms a change as another event, asks for new
-- snapshots of the Traefik providers that the device's actions deliver to, and fans out one job for
-- each other action of the device. Every state is the fold of a stream by a reducer. Agents of
-- Traefik providers hold a gRPC session; the coordinator batches causes, the publisher turns them
-- into snapshots, and the session registry pushes these to the agents. The routes of devices, actions
-- and providers check a request against the loaded states and append one event or two; the execution
-- worker runs an action and records each attempt; projections in Redis show the states as lists.
--
-- The files, with the code that they follow (below backend/src/ where no other folder is named):
--   Base          what every file shares: tests on numbers and texts, lists, JavaScript's maps
--   Event         ports/event-store.ts, domain/cloud-events.ts and events.ts of each domain folder;
--                 an event name with its data is one constructor
--   EventStore    adapters/event-store-postgres/postgres-event-store.ts, domain/replay.ts: `append`,
--                 `readStream`, `listAggregateIds`, `resolveAccountId`, `deleteAccount` on a table
--                 that is the list of its rows, `loadAggregate` as a fold. Order, Streams,
--                 Consistency and Append hold the lemmas, History what every run reaches, Replay
--                 the load after an append
--   Aggregates    the reducers of the seven aggregates, and the active tokens of a provider
--   ProviderStore domain/traefik-provider/provider-store.ts: loads and the append with its retry,
--                 where `others` is what other processes write between a load and an insert
--   Firewall      domain/action/firewall-rule-selector.ts and the executor in
--                 adapters/actions/hetzner-firewall/
--   Devices       adapters/queue-bullmq/debounce-worker.ts (Settle), execution-fanout-worker.ts
--                 (FanOut) and domain/traefik-provider/delivery-actions.ts (Delivery)
--   Accounts      domain/account/account-service.ts
--   IpClients     projections/ip-clients-projection.ts and adapters/http/routes/ip-clients.ts: World
--                 holds what the handlers share, Routes the handlers, the other children what is
--                 proved of one event (Writes), of the projection (Rebuild, Sync, Requests), of a
--                 registration (Register) and of foreign and decommissioned devices (Ownership)
--   Providers     adapters/http/routes/traefik-providers.ts: View what is shown of a state, Routes and
--                 Lifecycle the handlers
--   Actions       projections/actions-projection.ts and adapters/http/routes/actions.ts: Checks the
--                 validations, Routes, Changes and Reconfigure the handlers
--   Deliveries    domain/traefik-provider/delivery-history.ts, and
--                 adapters/http/routes/delivery-status.ts (Status)
--   Executions    adapters/queue-bullmq/action-execution-worker.ts: Resolve, Notify and Worker one
--                 attempt over an interface, Store the interface over the event store, with
--                 projections/executions-projection.ts
--   Agent         domain/traefik-provider/agent-protocol.ts (Protocol), agent-session-handler.ts
--                 (Session) and snapshot.ts (Snapshot), adapters/agent-grpc/session-registry.ts
--                 (Registry) and snapshot-coordinator.ts (Coordinator), and
--                 adapters/queue-bullmq/snapshot-publisher.ts (Publisher)
--   Wizard        frontend/src/flows/wizard/useWizard.ts, as moves of the user and of the request
--   Tests         the theorems at concrete inputs, and runs of the definitions
--
-- How state is modelled. Each store, registry or map is a value that an operation takes and returns;
-- a call of a collaborator (a channel, the queue, the publisher) is part of the result. The session
-- handler takes the provider store and the publisher as records of operations over a state of
-- their own, which the tests fill with the provider store over a table. A thrown error is the `err`
-- of a `Result`. Races are arguments or steps: other writers of a stream are functions on the table
-- (ProviderStore, Devices.Settle) or steps of a history (EventStore.History); triggers, timers and
-- ends of runs are the operations of a trace (Agent.Coordinator.Trace); messages, ticks and the end
-- of a transport are the inputs of a session (Agent.Session.Life).
--
-- A request is a function from the table, the hashes in Redis and the recorded calls to these and a
-- reply; requests come one after the other. The execution worker's interface is filled with the
-- event store in Executions.Store. A hash in Redis is a map from ids to summaries, the summary
-- standing for its JSON text, and a hash without entries is an absent one.
--
-- Fuel. The loop of the provider store's append has fuel, one for each attempt: the code goes round
-- once more at most, so two are enough, and the list below says that they are. A number is written
-- out (Base.Numbers) with one round more than the number, which has at most that many digits.
--
-- Clock, ULIDs, number formatting, `toISOString`, `Date.parse`, `localeCompare`, `trim`,
-- `toLowerCase`, the pattern of a group, the hash and size of a snapshot, new credentials and tokens,
-- decryption, the executors, the Hetzner API and the notification channels are arguments. A number
-- on ℕ stands for a JavaScript number that the code only counts or compares; the session's elapsed
-- time is cut off at zero, where the code compares a negative number with a positive limit.
--
-- Not modelled: PostgreSQL, Redis, BullMQ and gRPC themselves; the routing and rendering of Hono,
-- authentication and configuration; the routes of credentials, channels, history, reports and
-- administration; closing an account; the agent (agent/, in Go) and the rest of the frontend. A
-- message of a session is handled to its end before the next input, and a publication before the
-- next one of its provider. Logging has no effect on the state.
pub mod Base
pub mod Event
pub mod EventStore
pub mod Aggregates
pub mod ProviderStore
pub mod Firewall
pub mod Devices
pub mod Accounts
pub mod IpClients
pub mod Providers
pub mod Actions
pub mod Deliveries
pub mod Wizard
pub mod Executions
pub mod Agent
mod Tests
