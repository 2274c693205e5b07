-- ===== src/Examples.antt =====
-- Concrete runs of the models, and the theorems at inputs that meet their hypotheses.
mod Wire
mod Rings
mod Recorder
mod Scope
mod Stepper
mod Breaker
mod Control
mod Journal
mod Leases
mod CodeFetch
mod Translation
mod Trace
mod Trap
