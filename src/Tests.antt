-- ===== src/Tests.antt =====
-- Tests of the model, and the theorems at concrete inputs.
mod Memory
mod Relay
mod Agents
mod Jobs
mod Transfers
mod Machine
mod Tree
mod Commands
mod Loop
mod Logs
mod Updates
