-- ===== src/Tests.antt =====
-- Runs of the model at concrete inputs, one for each theorem that has hypotheses.
mod Demo
mod States
mod Queues
mod Polls
mod Canister
mod Connections
mod Reached
mod Numbers
mod Sends
mod Silent
mod Certified
mod Timers
