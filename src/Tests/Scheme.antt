-- ===== src/Tests/Scheme.antt =====
-- Schemes that record the calls.
use gardener_extension_netwo.Prelude.{◌≡◌, refl, String, Bool, true, List, [], ◌∷◌, ◌++◌}
use gardener_extension_netwo.Prelude.Result.{ok}
use gardener_extension_netwo.Scheme.{SchemeCall, Schemes, must_succeed}
use gardener_extension_netwo.Scheme.Calico.{
  add_to_scheme, add_v1alpha1_to_scheme, add_internal_to_scheme, register_conversions, decode_init,
}
use gardener_extension_netwo.Scheme.Config.{add_config_to_scheme, loader_init}
use gardener_extension_netwo.Scheme.Codecs.{
  Serializers, decoder_init, codec_init, decoder_init-install_calls,
}
use gardener_extension_netwo.Scheme.Installed.{
  perform_each, install_calls, config_install_calls, add_to_scheme-install_calls,
  add_config_to_scheme-install_calls, decode_init-install_calls, loader_init-install_calls,
}

abbrev recording : Schemes
recording = record { Scheme = List SchemeCall; perform = λ call calls. (ok tt, calls ++ call ∷ []) }

recorded_lem : perform_each recording install_calls [] ≡ (ok tt, install_calls)
recorded_lem = refl

add_to_scheme-install_calls_example :
    add_to_scheme recording [] ≡ perform_each recording install_calls []
add_to_scheme-install_calls_example = add_to_scheme-install_calls recording []

add_config_to_scheme-install_calls_example :
    add_config_to_scheme recording [] ≡ perform_each recording config_install_calls []
add_config_to_scheme-install_calls_example = add_config_to_scheme-install_calls recording []

decode_init-install_calls_lem :
    decode_init recording [] ≡ must_succeed (perform_each recording install_calls) []
decode_init-install_calls_lem = decode_init-install_calls recording []

loader_init-install_calls_lem :
    loader_init recording [] ≡ must_succeed (perform_each recording config_install_calls) []
loader_init-install_calls_lem = loader_init-install_calls recording []

-- A decoder is its scheme, and whether it is strict.
abbrev serializers : Serializers recording
serializers = record {
  Decoder = List SchemeCall × Bool;
  Serializer = List SchemeCall;
  Codec = List SchemeCall × String;
  new_scheme = [];
  universal_decoder = λ scheme strict. (scheme, strict);
  new_yaml_serializer = λ creater typer. typer;
  new_defaulting_codec_for_scheme = λ scheme encoder decoder to from. (decoder, from.version);
}

decoder_init_lem : decoder_init serializers ≡ ok (install_calls, (install_calls, true))
unfolding decoder_init decode_init add_to_scheme add_v1alpha1_to_scheme add_internal_to_scheme
    register_conversions
decoder_init_lem = refl

decoder_init-install_calls_example :
    (decoder_init serializers ≡ ok (install_calls, (install_calls, true)))
    × (codec_init serializers ≡ ok (config_install_calls, (config_install_calls, "__internal")))
decoder_init-install_calls_example = decoder_init-install_calls serializers
