-- ===== src/Scheme/Installed.antt =====
-- What the two packages install.
use mathlib.Core.Path.{fun_ext}
use gardener_extension_netwo.Prelude.{◌≡◌, refl, ap, String, List, [], ◌∷◌, ◌++◌}
use gardener_extension_netwo.Prelude.Result.{Result, ok, err, panic, must}
use gardener_extension_netwo.Actuator.Seed.{Action, lift, continue, ◌>>◌}
use gardener_extension_netwo.Scheme.{
  GroupVersion, SchemeCall, add_known_types, add_generated_conversion_func, set_version_priority,
  Schemes, add_all, must_succeed,
}
use gardener_extension_netwo.Scheme.Calico.{
  scheme_group_version, internal_scheme_group_version, register_conversions, add_v1alpha1_to_scheme,
  add_internal_to_scheme, add_to_scheme, decode_init, add_internal_known_types,
}
use gardener_extension_netwo.Scheme.Config.{
  config_group_version, internal_config_group_version, register_config_conversions,
  add_internal_config_known_types, add_v1alpha1_config_to_scheme, add_internal_config_to_scheme,
  add_config_to_scheme, install_config, loader_init,
}

module _ (S : Schemes) where
  -- The calls in order, up to the first that does not succeed.
  abbrev pub perform_each : List SchemeCall → Action S.Scheme (Unit {0})
  perform_each [] = lift (ok tt)
  perform_each (c ∷ cs) = S.perform c >> perform_each cs

  continue-ok : (r : Result (Unit {0})) (s : S.Scheme) → continue r s (λ _. lift (ok tt)) ≡ (r, s)
  continue-ok (ok a) s = refl
  continue-ok (err e) s = refl
  continue-ok (panic e) s = refl

  -- A builder of one function is the function.
  pub add_all-one : (f : Action S.Scheme (Unit {0})) → add_all (f ∷ []) ≡ f
  add_all-one f = fun_ext λ s. continue-ok (f s).0 (f s).1

  continue-perform_each :
      (r : Result (Unit {0})) (s : S.Scheme) (f g h : Action S.Scheme (Unit {0}))
      → ((t : S.Scheme) → (f >> h) t ≡ g t)
      → continue (continue r s (λ _. f)).0 (continue r s (λ _. f)).1 (λ _. h)
        ≡ continue r s (λ _. g)
  continue-perform_each (ok a) s f g h e = e s
  continue-perform_each (err d) s f g h e = refl
  continue-perform_each (panic d) s f g h e = refl

  perform_each-append :
      (xs ys : List SchemeCall) (s : S.Scheme)
      → (perform_each xs >> perform_each ys) s ≡ perform_each (xs ++ ys) s
  perform_each-append [] ys s = refl
  perform_each-append (x ∷ xs) ys s =
      continue-perform_each (S.perform x s).0 (S.perform x s).1 (perform_each xs)
        (perform_each (xs ++ ys)) (perform_each ys) (perform_each-append xs ys)

-- Both directions of a conversion.
abbrev both : GroupVersion → GroupVersion → String → List SchemeCall
both version internal type =
    add_generated_conversion_func version internal type
    ∷ add_generated_conversion_func internal version type
    ∷ []

abbrev pub v1alpha1_calls : List SchemeCall
v1alpha1_calls =
    add_known_types scheme_group_version ("NetworkConfig" ∷ "NetworkStatus" ∷ [])
    ∷ (both scheme_group_version internal_scheme_group_version "IPAM"
        ++ (both scheme_group_version internal_scheme_group_version "IPv4"
            ++ (both scheme_group_version internal_scheme_group_version "NetworkConfig"
                ++ (both scheme_group_version internal_scheme_group_version "NetworkStatus"
                    ++ both scheme_group_version internal_scheme_group_version "Typha"))))

abbrev internal_calls : List SchemeCall
internal_calls =
    add_known_types internal_scheme_group_version ("NetworkConfig" ∷ "NetworkStatus" ∷ [])
    ∷ set_version_priority scheme_group_version
    ∷ []

abbrev pub install_calls : List SchemeCall
install_calls = v1alpha1_calls ++ internal_calls

abbrev config_v1alpha1_calls : List SchemeCall
config_v1alpha1_calls =
    add_known_types config_group_version ("ControllerConfiguration" ∷ [])
    ∷ both config_group_version internal_config_group_version "ControllerConfiguration"

abbrev config_internal_calls : List SchemeCall
config_internal_calls =
    add_known_types internal_config_group_version ("ControllerConfiguration" ∷ [])
    ∷ set_version_priority config_group_version
    ∷ []

abbrev pub config_install_calls : List SchemeCall
config_install_calls = config_v1alpha1_calls ++ config_internal_calls

module _ (S : Schemes) where
  -- `AddToScheme` registers the types of both versions, the conversions of all five types in both directions,
  -- and the priority, in this order and up to the first call that does not succeed.
  pub add_to_scheme-install_calls :
      (s : S.Scheme) → add_to_scheme S s ≡ perform_each S install_calls s
  unfolding add_to_scheme add_v1alpha1_to_scheme add_internal_to_scheme register_conversions
  add_to_scheme-install_calls s =
      rw (add_all-one S (register_conversions S), add_all-one S (add_internal_known_types S))
        (perform_each-append S v1alpha1_calls internal_calls s)

  -- The same of the configuration's own API, with its one type.
  pub add_config_to_scheme-install_calls :
      (s : S.Scheme) → add_config_to_scheme S s ≡ perform_each S config_install_calls s
  unfolding add_config_to_scheme add_v1alpha1_config_to_scheme add_internal_config_to_scheme
      register_config_conversions
  add_config_to_scheme-install_calls s =
      rw
        (
          add_all-one S (register_config_conversions S),
          add_all-one S (add_internal_config_known_types S),
        )
        (perform_each-append S config_v1alpha1_calls config_internal_calls s)

  -- The set-up of the decoder of provider configs makes those calls on its new scheme, and panics where
  -- one of them has an error.
  pub decode_init-install_calls :
      (s : S.Scheme) → decode_init S s ≡ must_succeed (perform_each S install_calls) s
  unfolding decode_init
  decode_init-install_calls s = ap (λ (r, t). (must r, t)) (add_to_scheme-install_calls s)

  -- The set-up of the codec of configuration files, likewise.
  pub loader_init-install_calls :
      (s : S.Scheme) → loader_init S s ≡ must_succeed (perform_each S config_install_calls) s
  unfolding loader_init install_config
  loader_init-install_calls s = ap (λ (r, t). (must r, t)) (add_config_to_scheme-install_calls s)
