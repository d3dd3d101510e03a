-- ===== src/Api/Internal.antt =====
-- The internal version of the API types, pkg/apis/calico.
pub mod Types
pub mod Memory
pub mod DeepCopy
