-- ===== src/Scheme/Codecs.antt =====
-- The package variables that the `init` functions of pkg/apis/calico/v1alpha1/helper/decode.go and of
-- pkg/apis/config/loader/loader.go leave.
use gardener_extension_netwo.Prelude.{◌≡◌, Bool, true}
use gardener_extension_netwo.Prelude.Result.{Result, ok, must, ◌>>=◌}
use gardener_extension_netwo.Scheme.{GroupVersion, Schemes, api_version_internal}
use gardener_extension_netwo.Scheme.Calico.{decode_init}
use gardener_extension_netwo.Scheme.Config.{loader_init}
use gardener_extension_netwo.Scheme.Installed.{
  perform_each, install_calls, config_install_calls, decode_init-install_calls,
  loader_init-install_calls,
}

-- apimachinery's packages serializer, serializer/json and serializer/versioning. `universal_decoder` is
-- `NewCodecFactory(scheme, …).UniversalDecoder()`, strict or not, and a codec is given the serializers to
-- encode and to decode with and the versions to encode and to decode to.
pub record Serializers (S : Schemes) : Type 1 where
  pub Decoder : Type 0
  pub Serializer : Type 0
  pub Codec : Type 0
  pub new_scheme : S.Scheme
  pub universal_decoder : S.Scheme → Bool → Decoder
  pub new_yaml_serializer : S.Scheme → S.Scheme → Serializer
  pub new_defaulting_codec_for_scheme :
      S.Scheme → Serializer → Serializer → GroupVersion → GroupVersion → Codec

module _ {S : Schemes} (Z : Serializers S) where
  -- The scheme and the decoder of provider configs.
  unfoldable pub decoder_init : Result (S.Scheme × Z.Decoder)
  decoder_init =
      let (installed, scheme) = decode_init S Z.new_scheme in
      installed >>= λ _. ok (scheme, Z.universal_decoder scheme true)

  -- The scheme and the codec of configuration files; `runtime.InternalGroupVersioner` is the internal
  -- version of every group.
  unfoldable pub codec_init : Result (S.Scheme × Z.Codec)
  codec_init =
      let (installed, scheme) = loader_init S Z.new_scheme in
      let yaml_serializer = Z.new_yaml_serializer scheme scheme in
      installed >>= λ _. ok (
        scheme,
        Z.new_defaulting_codec_for_scheme scheme yaml_serializer yaml_serializer
            (record { group = ""; version = "v1alpha1" })
            (record { group = ""; version = api_version_internal }),
      )

  -- Each `init` registers all types, conversions and priorities of its own API on a new scheme, in this order,
  -- and makes its decoder, a strict one, or its codec from the scheme that this leaves; where a
  -- registration has an error, it panics.
  pub decoder_init-install_calls :
      (decoder_init ≡ (
        must (perform_each S install_calls Z.new_scheme).0 >>= λ _. ok (
          (perform_each S install_calls Z.new_scheme).1,
          Z.universal_decoder (perform_each S install_calls Z.new_scheme).1 true,
        )))
      × (codec_init ≡ (
          let scheme = (perform_each S config_install_calls Z.new_scheme).1 in
          must (perform_each S config_install_calls Z.new_scheme).0 >>= λ _. ok (
            scheme,
            Z.new_defaulting_codec_for_scheme scheme
                (Z.new_yaml_serializer scheme scheme)
                (Z.new_yaml_serializer scheme scheme)
                (record { group = ""; version = "v1alpha1" })
                (record { group = ""; version = api_version_internal }),
          )))
  unfolding decoder_init codec_init
  decoder_init-install_calls =
      (rw (decode_init-install_calls S Z.new_scheme), rw (loader_init-install_calls S Z.new_scheme))
