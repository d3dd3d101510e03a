-- ===== src/Tests.antt =====
-- Concrete inputs, runs of the definitions on them, and instances of the theorems.
pub mod Inputs
mod Charts
mod Json
mod Api
mod Actuator
mod Command
mod Scheme
