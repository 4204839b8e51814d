-- ===== src/Agent.antt =====
-- The agent sessions and the snapshots that are pushed to them: backend/src/adapters/agent-grpc,
-- backend/src/domain/traefik-provider and the publisher in backend/src/adapters/queue-bullmq.
pub mod Protocol
pub mod Registry
pub mod Coordinator
pub mod Session
pub mod Snapshot
pub mod Publisher
