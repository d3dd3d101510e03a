-- ===== src/Command.antt =====
-- pkg/cmd, pkg/apis/config, pkg/healthcheck and the command of
-- cmd/gardener-extension-networking-calico: how the controllers are set up and started.
pub mod Config
pub mod Setup
pub mod Options
pub mod Run
pub mod Main
pub mod Wired
