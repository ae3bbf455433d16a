-- ===== src/Tests.antt =====
-- Runs of the model at concrete inputs, and the theorems at inputs that meet their hypotheses.
mod Coder
mod Packet
mod Safe
mod Cluster
mod Log
mod Client
mod Queue
mod Server
mod Broker
mod Booter
mod Api
mod Discovery
