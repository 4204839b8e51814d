-- ===== src/Devices.antt =====
-- What follows when the address of a device settles: backend/src/adapters/queue-bullmq (the debounce
-- worker and the fan-out of executions) and backend/src/domain/traefik-provider/delivery-actions.ts.
pub mod Delivery
pub mod FanOut
pub mod Settle
