-- ===== src/Tests.antt =====
-- Runs of the model on small inputs: each theorem at inputs that meet its hypotheses.
mod Memory
mod Store
mod Samples
mod Locks
mod Executions
mod Ends
mod Rounds
mod Nodes
mod Connections
mod Servers
mod Tokens
mod Scripts
pub mod Turns
pub mod Schedulers
mod Parts
