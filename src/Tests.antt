-- ===== src/Tests.antt =====
-- Runs of the definitions on concrete inputs, and the theorems at such inputs.
mod Samples
mod EventStore
mod Aggregates
mod ProviderStore
mod Firewall
mod Agent
mod Session
mod Devices
mod Publisher
mod Tables
mod IpClients
mod Executions
mod Providers
mod Actions
mod Deliveries
mod Accounts
mod Wizard
mod Status
