-- ===== src/Examples.antt =====
-- Tests of the definitions, and the theorems at inputs that meet their hypotheses.
mod Orders
mod Api
mod Store
mod Concurrent
mod Pubsub
mod Grpc
mod Sqs
mod World
mod System
mod Delivery
mod Queued
mod Typed
mod Catalogue
mod Cli
mod Main
mod Tools
