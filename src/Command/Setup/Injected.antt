-- ===== src/Command/Setup/Injected.antt =====
-- The actuator after the manager has injected its client and its REST configuration.
use gardener_extension_netwo.Prelude.{◌≡◌, refl, some}
use gardener_extension_netwo.Prelude.Result.{ok}
use gardener_extension_netwo.Actuator.Seed.{◌>>◌}
use gardener_extension_netwo.Command.Setup.{
  Platform, ActuatorFields, inject_client, inject_config, new_actuator, log_id,
}

module _ {P : Platform} where
  -- Where a clientset can be made, both injections end well on a new actuator and set all of its fields,
  -- in either order.
  pub inject-new_actuator :
      (factory : P.ChartRendererFactory) (client : P.Client) (config : P.RestConfig)
      {clientset : P.Clientset}
      → P.new_with_config config ≡ ok clientset
      → (fields : ActuatorFields P) × (fields ≡ record {
        logger = log_id;
        chart_renderer_factory = factory;
        rest_config = some config;
        client = some client;
        gardener_clientset = some clientset;
        chart_applier = some (P.chart_applier clientset);
      })
        × ((inject_client client >> inject_config config) (new_actuator factory) ≡ (ok tt, fields))
        × ((inject_config config >> inject_client client) (new_actuator factory) ≡ (ok tt, fields))
  unfolding inject_client inject_config new_actuator
  inject-new_actuator factory client config h = (_, refl, rw h, rw h)
