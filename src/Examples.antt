-- ===== src/Examples.antt =====
-- Tests of the model and the theorems at concrete inputs.
mod Data
mod Retry
mod Worker
mod Consumer
mod Sweeper
mod Publishing
mod Replay
mod Guard
mod TokenBucket
mod Accounts
mod System
mod Members
mod Retention
mod Pages
mod Idempotency
mod Broker
mod RateLimit
mod Realtime
mod Dashboard
mod Processes
mod ApiKeys
mod Http
mod Json
