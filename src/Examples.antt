-- ===== src/Examples.antt =====
-- Runs of the models on concrete inputs, at which the theorems' hypotheses hold.
mod Acl
mod Ingress
mod Http
mod Protocol
mod Address
mod Slots
mod Tunnel
mod Lifetime
mod EventQueue
mod Sends
mod Registry
mod Buffer
mod Tuning
mod ThreadPool
mod Dispatch
