-- ===== src/Api.antt =====
-- The API types of pkg/apis/calico.
pub mod Types
pub mod Decode
pub mod Memory
pub mod DeepCopy
pub mod Internal
pub mod Conversion
