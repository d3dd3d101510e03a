-- ===== src/Charts.antt =====
-- pkg/charts: from a network configuration to the values of the calico chart, and the chart.
pub mod Config
pub mod Generate
pub mod Marshal
pub mod Values
pub mod Render
pub mod Templates
