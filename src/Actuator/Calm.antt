-- ===== src/Actuator/Calm.antt =====
-- When no operation of the actuator panics.
use gardener_extension_netwo.Prelude.{
  ◌≡◌, refl, sym, subst, String, Option, none, some, Option-cases, List, [], ◌∷◌, Every, Bool, inl,
  inr,
}
use gardener_extension_netwo.Prelude.Result
use gardener_extension_netwo.Prelude.Result.{Result, ok, err, panic, with_prefix}
use gardener_extension_netwo.Gardener.{Bytes, Network, Shoot, Cluster}
use gardener_extension_netwo.Json.Maps.{GoMap, go_map}
use gardener_extension_netwo.Api.Types.{NetworkConfig}
use gardener_extension_netwo.Api.Decode.{calico_network_config_from_network_resource}
use gardener_extension_netwo.Images.{ImageVectors}
use gardener_extension_netwo.Charts.Config.{CalicoConfig}
use gardener_extension_netwo.Charts.Generate.{generate_chart_values}
use gardener_extension_netwo.Charts.Generate.Expected.{reject}
use gardener_extension_netwo.Charts.Generate.Reference.{generate_chart_values-expected}
use gardener_extension_netwo.Charts.Values.{compute_calico_chart_values}
use gardener_extension_netwo.Charts.Values.Laws.{
  IsFound, image_names, compute_calico_chart_values-ok,
}
use gardener_extension_netwo.Charts.Render.{ChartRenderers, render_calico_chart}
use gardener_extension_netwo.Actuator.Seed.{Call, delete_chart, Action, continue}
use gardener_extension_netwo.Actuator.Environment.{Environment}
use gardener_extension_netwo.Actuator.Reconcile.{wrapping, provider_config, render}
use gardener_extension_netwo.Actuator.Retries.{outcome}
use gardener_extension_netwo.Actuator.Attempts.{
  Operation, reconciles, deletes, migrates, restores, operate,
}
use gardener_extension_netwo.Actuator.Pool.{rendering, operation_calls, attempt}
use gardener_extension_netwo.Actuator.Pool.Calls.{attempts, operate-attempts}

-- A result that is no panic.
abbrev pub IsCalm {ℓ} : {A : Type ℓ} → Result A → Type 0
IsCalm (panic e) = ⊥
IsCalm (ok a) = Unit
IsCalm (err e) = Unit

>>=-IsCalm :
    {A B : Type 0} (m : Result A) (f : A → Result B)
    → IsCalm m
    → ((a : A) → m ≡ ok a → IsCalm (f a))
    → IsCalm (Result.◌>>=◌ m f)
>>=-IsCalm (ok a) f h k = k a refl
>>=-IsCalm (err e) f h k = tt
>>=-IsCalm (panic e) f h k = h

some-IsCalm :
    {A : Type 0} (m : Result A)
    → IsCalm m
    → IsCalm (elim m as (λ _. Result (Option A)) [
      | ok a ↦ ok (some a)
      | err e ↦ err e
      | panic e ↦ panic e
    ])
some-IsCalm (ok a) h = tt
some-IsCalm (err e) h = tt
some-IsCalm (panic e) h = h

wrapping-IsCalm : {A : Type 0} (s : String) (m : Result A) → IsCalm m → IsCalm (wrapping s m)
wrapping-IsCalm s (ok a) h = tt
wrapping-IsCalm s (err e) h = tt
wrapping-IsCalm s (panic e) h = h

continue-IsCalm :
    {S A B : Type 0} (r : Result A) (s : S) (f : A → Action S B)
    → IsCalm r
    → ((a : A) → r ≡ ok a → IsCalm (f a s).0)
    → IsCalm (continue r s f).0
continue-IsCalm (ok a) s f h k = k a refl
continue-IsCalm (err e) s f h k = tt
continue-IsCalm (panic e) s f h k = h

reject-IsCalm : {A : Type 0} (m : Option String) (a : A) → IsCalm (reject m a)
reject-IsCalm none a = tt
reject-IsCalm (some m) a = tt

generate_chart_values-IsCalm :
    (config : Option NetworkConfig) → IsCalm (generate_chart_values config)
unfolding generate_chart_values
generate_chart_values-IsCalm none = tt
generate_chart_values-IsCalm (some config) =
    subst IsCalm (sym (generate_chart_values-expected config)) (reject-IsCalm _ _)

module _ (I : ImageVectors) (vector : I.ImageVector) (network : Network) (on : Bool)
    (version : String) (vpa : Bool) (config : Option NetworkConfig)
    (found : Every (IsFound I vector version) image_names) where
  computed-IsCalm :
      (r : Result CalicoConfig)
      → generate_chart_values config ≡ r
      → IsCalm r
      → IsCalm (compute_calico_chart_values I vector network config on version vpa)
  unfolding compute_calico_chart_values
  computed-IsCalm (ok c) e h =
      subst IsCalm
        (sym (compute_calico_chart_values-ok I vector network on version vpa config e found).1) tt
  computed-IsCalm (err _) e h = rw (compute_calico_chart_values, e) tt
  computed-IsCalm (panic _) e h = absurd h

  compute_calico_chart_values-IsCalm :
      IsCalm (compute_calico_chart_values I vector network config on version vpa)
  compute_calico_chart_values-IsCalm =
      computed-IsCalm (generate_chart_values config) refl (generate_chart_values-IsCalm config)

  render_calico_chart-IsCalm :
      (C : ChartRenderers) (renderer : C.Renderer)
      → ((path release namespace : String) (values : GoMap)
          → IsCalm (C.render renderer path release namespace values))
      → IsCalm (render_calico_chart I vector C renderer network config on version vpa)
  unfolding render_calico_chart
  render_calico_chart-IsCalm C renderer calm =
      >>=-IsCalm (compute_calico_chart_values I vector network config on version vpa) _
        compute_calico_chart_values-IsCalm
        λ values _.
          >>=-IsCalm (C.render renderer _ _ _ (go_map values)) _ (calm _ _ _ (go_map values))
            λ release _. tt

-- Nothing that the actuator is given panics, and the image vector has the seven images for the version.
pub record IsCalmEnvironment (E : Environment) (version : String) : Type 0 where
  pub decode : (raw : Bytes) → IsCalm (E.decode raw)
  pub found : Every (IsFound E.images E.vector version) image_names
  pub new_for_shoot : IsCalm (E.renderers.new_for_shoot version)
  pub render :
      (renderer : E.renderers.Renderer) (path release namespace : String) (values : GoMap)
      → IsCalm (E.renderers.render renderer path release namespace values)
  pub perform : (c : Call) (s : E.seed.State) → IsCalm (E.seed.perform c s).0
  pub ignore_not_found : (r : Result (Unit {0})) → IsCalm r → IsCalm (E.seed.ignore_not_found r)

module _ (E : Environment) (network : Network) (cluster : Cluster) {shoot : Shoot}
    (there : cluster.shoot ≡ some shoot) (calm : IsCalmEnvironment E shoot.kubernetes_version) where
  decoded-IsCalm : IsCalm (calico_network_config_from_network_resource E.decode network)
  unfolding calico_network_config_from_network_resource
  decoded-IsCalm = elim (Option-cases network.provider_config) [
    | inl e ↦ rw (calico_network_config_from_network_resource, e) tt
    | inr (extension, e) ↦ elim (Option-cases extension.raw) [
      | inl f ↦ rw (calico_network_config_from_network_resource, e, f) tt
      | inr (raw, f) ↦
          rw (calico_network_config_from_network_resource, e, f)
            (>>=-IsCalm (E.decode raw) _ (calm.decode raw) λ _ _. tt)
    ]
  ]

  provider_config-IsCalm : IsCalm (provider_config E network)
  unfolding provider_config
  provider_config-IsCalm = elim (Option-cases network.provider_config) [
    | inl e ↦ rw (provider_config, e) tt
    | inr (extension, e) ↦
        rw (provider_config, e)
          (some-IsCalm (calico_network_config_from_network_resource E.decode network)
            decoded-IsCalm)
  ]

  render-IsCalm : (s : E.seed.State) → IsCalm (render E network cluster s).0
  unfolding render
  render-IsCalm s =
      continue-IsCalm (provider_config E network) s _ provider_config-IsCalm λ given _. rw there (
        continue-IsCalm (wrapping _ (E.renderers.new_for_shoot shoot.kubernetes_version)) s _
          (wrapping-IsCalm _ _ calm.new_for_shoot)
          λ renderer _.
            continue-IsCalm (render_calico_chart _ _ _ renderer _ _ _ _ _) s _
              (render_calico_chart-IsCalm E.images E.vector network _ shoot.kubernetes_version _ _
                calm.found E.renderers renderer (calm.render renderer))
              λ chart _. tt)

  outcome-IsCalm : (c : Call) (r : Result (Unit {0})) → IsCalm r → IsCalm (outcome E.seed c r)
  outcome-IsCalm (delete_chart c n) r h = calm.ignore_not_found r h
  outcome-IsCalm _ r h = h

  attempts-IsCalm : (cs : List Call) (s : E.seed.State) → IsCalm (attempts E.seed cs s).0
  attempts-IsCalm [] s = tt
  attempts-IsCalm (c ∷ cs) s =
      continue-IsCalm (attempt E.seed c s).0 (attempt E.seed c s).1 _
        (outcome-IsCalm c _ (calm.perform c s)) λ _ _. attempts-IsCalm cs _

  rendering-IsCalm : (op : Operation) (s : E.seed.State) → IsCalm (rendering E op network cluster s)
  rendering-IsCalm reconciles s =
      >>=-IsCalm (render E network cluster s).0 _ (render-IsCalm s) λ _ _. tt
  rendering-IsCalm restores s =
      >>=-IsCalm (render E network cluster s).0 _ (render-IsCalm s) λ _ _. tt
  rendering-IsCalm deletes s = tt
  rendering-IsCalm migrates s = tt

  -- No operation panics where the cluster has a shoot.
  pub operate-IsCalm :
      (op : Operation) (s : E.seed.State) → IsCalm (operate E op network cluster s).0
  operate-IsCalm op s =
      subst (λ r. IsCalm r.0) (sym (operate-attempts E network cluster op s))
        (continue-IsCalm (rendering E op network cluster s) s _ (rendering-IsCalm op s)
          λ calico_chart _. attempts-IsCalm (operation_calls op network calico_chart) s)
