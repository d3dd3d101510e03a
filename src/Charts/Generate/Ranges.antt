-- ===== src/Charts/Generate/Ranges.antt =====
-- The values that `generateChartValues` can put into a chart configuration.
use gardener_extension_netwo.Prelude.{
  ◌≡◌, refl, ◌⊎◌, String, Bool, true, false, not, Option, none, some, arith, eq_iff, sym, ◌∙◌,
  subst, ◌==◌, get_or, if◌then◌else◌, ◌||◌,
}
use gardener_extension_netwo.Prelude.Result.{ok}
use gardener_extension_netwo.Api.Types.{
  NetworkConfig, Ipv4, bird, vxlan, backend_none, pool_ipip, pool_vxlan, always, never, off,
  cross_subnet,
}
use gardener_extension_netwo.Charts.Config.{CalicoConfig}
use gardener_extension_netwo.Charts.Generate.Deprecated.{
  empty_config, generate_chart_values-empty_config,
}
use gardener_extension_netwo.Charts.Generate.{
  generate_chart_values, backend_supported, pool_supported, mode_supported,
}
use gardener_extension_netwo.Charts.Generate.Expected.{
  refused, refused_backend, refused_pool, refused_ipv4, first_of_two, first_refused, expected,
  has_backend, expected_pool, asked_mode, reject,
}
use gardener_extension_netwo.Charts.Generate.Reference.{generate_chart_values-expected}

-- Every value is one that the chart knows, and the components that need a backend are on exactly
-- if there is one.
pub record IsRenderable (c : CalicoConfig) : Type 0 where
  pub backend : (c.backend ≡ bird) ⊎ (c.backend ≡ vxlan) ⊎ (c.backend ≡ backend_none)
  pub pool : (c.ipv4.pool ≡ pool_ipip) ⊎ (c.ipv4.pool ≡ pool_vxlan)
  pub mode :
      (c.ipv4.mode ≡ always)
      ⊎ (c.ipv4.mode ≡ never)
      ⊎ (c.ipv4.mode ≡ off)
      ⊎ (c.ipv4.mode ≡ cross_subnet)
  pub kube_controllers : c.kube_controllers.enabled ≡ not (c.backend == backend_none)
  pub ipinip : c.felix.ipinip.enabled ≡ c.kube_controllers.enabled

or_split : (a b : Bool) → (a || b) ≡ true → (a ≡ true) ⊎ (b ≡ true)
or_split a b h = ground arith

backend_supported-cases :
    (b : String) → backend_supported b ≡ true → (b ≡ bird) ⊎ (b ≡ vxlan) ⊎ (b ≡ backend_none)
backend_supported-cases b h = ground (arith, eq_iff b bird, eq_iff b vxlan, eq_iff b backend_none)

pool_supported-cases : (b : String) → pool_supported b ≡ true → (b ≡ pool_ipip) ⊎ (b ≡ pool_vxlan)
pool_supported-cases b h = ground (arith, eq_iff b pool_ipip, eq_iff b pool_vxlan)

mode_supported-cases :
    (b : String)
    → mode_supported b ≡ true
    → (b ≡ always) ⊎ (b ≡ never) ⊎ (b ≡ off) ⊎ (b ≡ cross_subnet)
mode_supported-cases b h =
    ground (arith, eq_iff b always, eq_iff b never, eq_iff b off, eq_iff b cross_subnet)

-- A value that is not refused, or its default, passes the test.
refused-get_or :
    (prefix : String) (test : String → Bool) (o : Option String) (d : String)
    → refused prefix test o ≡ none
    → test d ≡ true
    → test (get_or o d) ≡ true
refused-get_or prefix test none d h k = k
refused-get_or prefix test (some s) d h k = ground arith

first_of_two-eq-none : (m n : Option String) → first_of_two m n ≡ none → (m ≡ none) × (n ≡ none)
first_of_two-eq-none none n h = (refl, h)
first_of_two-eq-none (some s) n h = cc

reject-eq-ok {ℓ} :
    {A : Type ℓ} (m : Option String) {a b : A} → reject m a ≡ ok b → (m ≡ none) × (a ≡ b)
reject-eq-ok none h = (refl, ground arith)
reject-eq-ok (some s) h = cc

expected_pool-supported :
    (v : Option Ipv4) (config : NetworkConfig)
    → refused_ipv4 v config ≡ none
    → pool_supported (expected_pool v) ≡ true
expected_pool-supported none config h = refl
expected_pool-supported (some v) config h =
    refused-get_or _ pool_supported v.pool pool_ipip
      (first_of_two-eq-none (refused_pool v.pool) _ h).0 refl

asked_mode-supported :
    (v : Option Ipv4) (config : NetworkConfig) (d : String)
    → refused_ipv4 v config ≡ none
    → mode_supported d ≡ true
    → mode_supported (get_or (asked_mode v config) d) ≡ true
asked_mode-supported none config d h k = refused-get_or _ mode_supported config.ipip d h k
asked_mode-supported (some v) config d h k =
    refused-get_or _ mode_supported v.mode d (first_of_two-eq-none (refused_pool v.pool) _ h).1 k

mode_supported-default : (b : Bool) → mode_supported (if b then always else never) ≡ true
mode_supported-default true = refl
mode_supported-default false = refl

expected-IsRenderable :
    (config : NetworkConfig) → first_refused config ≡ none → IsRenderable (expected config)
expected-IsRenderable config h =
    let (b, v) = first_of_two-eq-none (refused_backend config.backend) _ h in
    record {
      backend =
          backend_supported-cases _ (refused-get_or _ backend_supported config.backend bird b refl);
      pool = pool_supported-cases _ (expected_pool-supported config.ipv4 config v);
      mode = mode_supported-cases _ (
          asked_mode-supported config.ipv4 config _ v
            (mode_supported-default (has_backend config)));
      kube_controllers = refl;
      ipinip = refl;
    }

generate_chart_values-some-IsRenderable :
    (config : NetworkConfig) {c : CalicoConfig}
    → generate_chart_values (some config) ≡ ok c
    → IsRenderable c
generate_chart_values-some-IsRenderable config h =
    let (accepted, e) =
      reject-eq-ok (first_refused config) (sym (generate_chart_values-expected config) ∙ h) in
    subst IsRenderable e (expected-IsRenderable config accepted)

-- Every chart configuration that `generateChartValues` returns is renderable.
pub generate_chart_values-IsRenderable :
    (config : Option NetworkConfig) {c : CalicoConfig}
    → generate_chart_values config ≡ ok c
    → IsRenderable c
generate_chart_values-IsRenderable none h =
    generate_chart_values-some-IsRenderable empty_config
      (sym generate_chart_values-empty_config ∙ h)
generate_chart_values-IsRenderable (some config) h =
    generate_chart_values-some-IsRenderable config h
