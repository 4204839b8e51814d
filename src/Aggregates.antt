-- ===== src/Aggregates.antt =====
-- The reducers that fold a stream into the state of its aggregate: the `*-aggregate.ts` files under
-- backend/src/domain. `null` and `undefined` are both `none`.
pub mod Account
pub mod Action
pub mod Execution
pub mod IpClient
pub mod Settings
pub mod Provider
