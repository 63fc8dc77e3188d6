-- ===== src/Tests.antt =====
-- Runs of the definitions on the inputs of the repository's Go tests, and the theorems at concrete
-- inputs.
mod Config
mod Samples
mod Broker
mod Store
mod Requests
mod Server
mod Cycle
mod Durable
mod Atomic
mod Fakes
mod Database
mod Sql
mod Main
