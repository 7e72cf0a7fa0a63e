-- ===== src/Tests.antt =====
-- Runs of the modelled operations on small inputs, and the theorems applied to them.
mod Arrays
mod Queues
mod Threads
mod Wiring
mod Circuits
mod PortGates
mod Functional
mod Properties
mod Ports
mod Registries
mod Types
mod Counts
mod Tasks
