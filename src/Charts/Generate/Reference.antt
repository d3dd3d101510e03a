-- ===== src/Charts/Generate/Reference.antt =====
-- The code computes what Charts.Generate.Expected says.
use gardener_extension_netwo.Prelude.{
  ◌≡◌, refl, ap, inl, inr, Option-cases, ◌∙◌, String, true, not, Option, none, some, arith, ◌==◌,
  if◌then◌else◌, get_or,
}
use gardener_extension_netwo.Prelude.Result.{Result, ok, ◌>>=◌, >>=-map}
use gardener_extension_netwo.Api.Types.{
  Backend, Ipv4PoolMode, Ipv4, Ipam, Typha, NetworkConfig, bird, backend_none, pool_ipip, always,
  never,
}
use gardener_extension_netwo.Charts.Config.{
  CalicoConfig, default_calico_config, new_calico_config, default_mtu,
}
use gardener_extension_netwo.Charts.Generate.{
  apply_backend, disable_without_backend, apply_ipam, apply_pool, apply_mode, apply_auto_detection,
  apply_ipv4, apply_typha, apply_veth_mtu, generate_from, generate_chart_values,
}
use gardener_extension_netwo.Charts.Generate.Expected.{
  refused_backend, refused_pool, refused_mode, first_of_two, refused_ipv4, first_refused,
  asked_mode, asked_auto_detection, expected_ipam_type, expected_subnet, expected_pool,
  expected_typha, expected, reject,
}

module _ {A B : Type 0} {a : A} (b : B) (f : A → Result B) where
  reject->>=-ok : (m : Option String) → f a ≡ ok b → (reject m a >>= f) ≡ reject m b
  reject->>=-ok none h = h
  reject->>=-ok (some s) h = refl

-- The state after the first two blocks.
abbrev after_backend : Option Backend → CalicoConfig
after_backend b = record default_calico_config {
  backend = get_or b bird;
  felix = record { ipinip = record { enabled = not (get_or b bird == backend_none) } };
  kube_controllers = record { enabled = not (get_or b bird == backend_none) };
  ipv4 = record (default_calico_config.ipv4) {
    mode = if not (get_or b bird == backend_none) then always else never;
  };
}

disable-apply_backend :
    (b : Option Backend)
    → (apply_backend b new_calico_config >>= λ c. ok (disable_without_backend c))
      ≡ reject (refused_backend b) (after_backend b)
unfolding apply_backend disable_without_backend
disable-apply_backend none = refl
disable-apply_backend (some b) = ground arith

apply_ipam_lem :
    (i : Option Ipam) (c : CalicoConfig)
    → c.ipam ≡ default_calico_config.ipam
    → apply_ipam i c
      ≡ record c { ipam = record { ipam_type = expected_ipam_type i; subnet = expected_subnet i } }
unfolding apply_ipam
apply_ipam_lem none c e = ground arith
apply_ipam_lem (some i) c e = ground arith

apply_mode_lem :
    (prefix : String) (m : Option Ipv4PoolMode) (c : CalicoConfig)
    → apply_mode prefix m c
      ≡ reject
          (refused_mode prefix m)
          (record c { ipv4 = record (c.ipv4) { mode = get_or m c.ipv4.mode } })
unfolding apply_mode
apply_mode_lem prefix none c = refl
apply_mode_lem prefix (some m) c = ground arith

apply_pool_lem :
    (p : Option String) (c : CalicoConfig)
    → apply_pool p c
      ≡ reject
          (refused_pool p)
          (record c { ipv4 = record (c.ipv4) { pool = get_or p c.ipv4.pool } })
unfolding apply_pool
apply_pool_lem none c = refl
apply_pool_lem (some p) c = ground arith

apply_auto_detection_lem :
    (a : Option String) (c : CalicoConfig)
    → apply_auto_detection a c ≡ record c {
      ipv4 = record (c.ipv4) {
        auto_detection_method = first_of_two a c.ipv4.auto_detection_method;
      };
    }
unfolding apply_auto_detection
apply_auto_detection_lem none c = refl
apply_auto_detection_lem (some a) c = refl

first_of_two-none : (a : Option String) → first_of_two a none ≡ a
first_of_two-none none = refl
first_of_two-none (some a) = refl

abbrev with_ipv4 : Option Ipv4 → NetworkConfig → CalicoConfig → CalicoConfig
with_ipv4 v config c = record c {
  ipv4 = record {
    pool = expected_pool v;
    mode = get_or (asked_mode v config) c.ipv4.mode;
    auto_detection_method = asked_auto_detection v config;
  };
}

apply_ipv4_lem :
    (v : Option Ipv4) (config : NetworkConfig) (c : CalicoConfig)
    → c.ipv4.pool ≡ pool_ipip
    → c.ipv4.auto_detection_method ≡ none
    → apply_ipv4 v config c ≡ reject (refused_ipv4 v config) (with_ipv4 v config c)
unfolding apply_ipv4
apply_ipv4_lem none config c p a =
    rw apply_mode_lem
      (reject->>=-ok _ _ _ (ap ok (rw (apply_auto_detection_lem, a, p, first_of_two-none))))
apply_ipv4_lem (some v) config c p a = elim (Option-cases (refused_pool v.pool)) [
  | inl e ↦
      rw (apply_pool_lem, e, apply_mode_lem, p)
        (reject->>=-ok _ _ _ (ap ok (rw (apply_auto_detection_lem, a, first_of_two-none))))
  | inr (s, e) ↦ rw (apply_pool_lem, e)
]

apply_veth_mtu_lem :
    (mtu : Option String) (t : Option Typha) (c : CalicoConfig)
    → c.veth_mtu ≡ default_mtu
    → c.typha.enabled ≡ true
    → apply_veth_mtu mtu (apply_typha t c) ≡ record c {
      veth_mtu = get_or mtu default_mtu;
      typha = record { enabled = expected_typha t };
    }
unfolding apply_veth_mtu apply_typha
apply_veth_mtu_lem none none c e f = ground arith
apply_veth_mtu_lem (some m) none c e f = ground arith
apply_veth_mtu_lem none (some t) c e f = ground arith
apply_veth_mtu_lem (some m) (some t) c e f = ground arith

-- The body behind the first two blocks.
abbrev finish : NetworkConfig → CalicoConfig → Result CalicoConfig
finish config c = do
  c ← apply_ipv4 config.ipv4 config (apply_ipam config.ipam c)
  ok (apply_veth_mtu config.veth_mtu (apply_typha config.typha c))

finish-after_backend :
    (config : NetworkConfig)
    → finish config (after_backend config.backend)
      ≡ reject (refused_ipv4 config.ipv4 config) (expected config)
finish-after_backend config =
    let c : CalicoConfig = record (after_backend config.backend) {
      ipam = record {
        ipam_type = expected_ipam_type config.ipam;
        subnet = expected_subnet config.ipam;
      };
    } in
    rw
      (
        apply_ipam_lem config.ipam (after_backend config.backend) refl,
        apply_ipv4_lem config.ipv4 config c refl refl,
      )
      (reject->>=-ok _ _ _ (
        ap ok (
          apply_veth_mtu_lem config.veth_mtu config.typha (with_ipv4 config.ipv4 config c) refl
            refl)))

generate_from_lem :
    (config : NetworkConfig)
    → generate_from config new_calico_config ≡ reject (first_refused config) (expected config)
unfolding generate_from
generate_from_lem config =
    >>=-map (apply_backend config.backend new_calico_config) disable_without_backend (finish config)
    ∙ elim (Option-cases (refused_backend config.backend)) [
      | inl e ↦ rw (disable-apply_backend config.backend, e) (finish-after_backend config)
      | inr (s, e) ↦ rw (disable-apply_backend config.backend, e)
    ]

-- On a configuration the result is the error about the first value that is not supported, in the
-- order backend, pool, mode, where the deprecated mode is read instead of pool and mode if there is
-- no `ipv4`; and if all are supported, it is the chart configuration `expected`.
pub generate_chart_values-expected :
    (config : NetworkConfig)
    → generate_chart_values (some config) ≡ reject (first_refused config) (expected config)
unfolding generate_chart_values
generate_chart_values-expected config = generate_from_lem config
