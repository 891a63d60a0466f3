-- ===== src/Client/Builder.antt =====
-- `RtcSignallingClientBuilder` of client.rs, for native and for web clients. The transports (`tonic`,
-- `tonic_web_wasm_client`) are parameters; a duration is its milliseconds.
use just_webrtc.Common.{ℕ, String, Bool, true, false, Option, none, some, List, [], ◌∷◌}
use Prim.Native.String.{◌++◌}
use just_webrtc.Common.Action.{Result, ok, err}
use just_webrtc.Client.State.{invalid_url, tonic_transport, ClientResult}

pub record Tonic : Type 1 where
  -- The metadata of an empty request on which the timeout is set.
  pub Metadata : Type 0
  pub with_timeout : ℕ → Metadata
  pub Endpoint : Type 0
  pub TlsConfig : Type 0
  pub Client : Type 0
  pub from_shared : String → Result String Endpoint
  -- `ClientTlsConfig` with a domain name and the certificate of a PEM text.
  pub client_tls_config : String → String → TlsConfig
  pub tls_config : TlsConfig → Endpoint → Result String Endpoint
  pub connect_timeout : ℕ → Endpoint → Endpoint
  pub connect_lazy : Endpoint → Client

-- `tonic_web_wasm_client::Client` at a URL.
pub record WebTransport : Type 1 where
  pub Client : Type 0
  pub new : String → Client

pub record RtcSignallingClientBuilder : Type 0 where
  pub timeout : ℕ
  pub tls_enabled : Bool
  pub domain : Option String
  pub tls_ca_pem : Option String

pub record RtcSignallingClient (Metadata Client : Type 0) : Type 0 where
  pub grpc_metadata : Metadata
  pub inner : Client

unfoldable pub default : RtcSignallingClientBuilder
default = record { timeout = 10000; tls_enabled = false; domain = none; tls_ca_pem = none }

unfoldable pub set_timeout : ℕ → RtcSignallingClientBuilder → RtcSignallingClientBuilder
set_timeout timeout b = record b { timeout = timeout }

unfoldable pub set_tls : String → String → RtcSignallingClientBuilder → RtcSignallingClientBuilder
set_tls domain tls_ca_pem b = record b {
  tls_enabled = true;
  domain = some domain;
  tls_ca_pem = some tls_ca_pem;
}

-- The domain and the certificate, if both are set and TLS is enabled.
unfoldable pub tls_of : RtcSignallingClientBuilder → Option (String × String)
tls_of b = elim b.domain [
  | none ↦ none
  | some domain ↦ elim b.tls_ca_pem [
    | none ↦ none
    | some tls_ca_pem ↦ elim b.tls_enabled [ true ↦ some (domain, tls_ca_pem) | false ↦ none ]
  ]
]

abbrev pub or_invalid_url : {A : Type 0} → Result String A → ClientResult A
or_invalid_url (ok a) = ok a
or_invalid_url (err e) = err invalid_url

abbrev pub or_transport : {A : Type 0} → Result String A → ClientResult A
or_transport (ok a) = ok a
or_transport (err e) = err (tonic_transport e)

abbrev pub and_then : {A B : Type 0} → ClientResult A → (A → ClientResult B) → ClientResult B
and_then (ok a) f = f a
and_then (err e) f = err e

module _ (T : Tonic) where
  unfoldable pub native_endpoint : RtcSignallingClientBuilder → String → ClientResult T.Endpoint
  unfolding tls_of
  native_endpoint b addr = elim (tls_of b) [
    | some (domain, tls_ca_pem) ↦
        and_then (or_invalid_url (T.from_shared ("https://" ++ addr)))
          (λ endpoint. or_transport (T.tls_config (T.client_tls_config domain tls_ca_pem) endpoint))
    | none ↦ or_invalid_url (T.from_shared ("http://" ++ addr))
  ]

  unfoldable pub build :
      RtcSignallingClientBuilder → String → ClientResult (RtcSignallingClient T.Metadata T.Client)
  unfolding native_endpoint
  build b addr = and_then (native_endpoint b addr) (λ endpoint. ok (record {
    grpc_metadata = T.with_timeout b.timeout;
    inner = T.connect_lazy (T.connect_timeout b.timeout endpoint);
  }))

module _ (T : Tonic) (W : WebTransport) where
  unfoldable pub web_url : RtcSignallingClientBuilder → String → String
  web_url b addr = elim b.tls_enabled [ true ↦ "https://" ++ addr | false ↦ "http://" ++ addr ]

  unfoldable pub web_build :
      RtcSignallingClientBuilder → String → ClientResult (RtcSignallingClient T.Metadata W.Client)
  unfolding web_url
  web_build b addr =
      ok (record { grpc_metadata = T.with_timeout b.timeout; inner = W.new (web_url b addr) })

-- The calls of a user of the builder.
pub data Setting : Type 0 where
  timeout : ℕ → Setting
  tls : String → String → Setting

unfoldable pub setting : Setting → RtcSignallingClientBuilder → RtcSignallingClientBuilder
unfolding set_timeout set_tls
setting (timeout t) b = set_timeout t b
setting (tls domain tls_ca_pem) b = set_tls domain tls_ca_pem b

unfoldable pub settings : List Setting → RtcSignallingClientBuilder → RtcSignallingClientBuilder
unfolding setting
settings [] b = b
settings (s ∷ ss) b = settings ss (setting s b)
