-- ===== src/Server/Serving.antt =====
-- `serve` and `serve_web` of server.rs, over the transports (`tonic`, `tower_http`, `tonic_web`) as a
-- parameter: what is configured before a server runs. A duration is its milliseconds.
use just_webrtc.Common.{
  ℕ, String, ◌≡◌, Bool, true, false, Option, none, some, List, [], ◌∷◌, ◌++◌, map,
}
use just_webrtc.Common.Action.{Result, ok, err}

pub record CorsLayer (HeaderName : Type 0) : Type 0 where
  pub mirrors_origin : Bool
  pub allow_credentials : Bool
  pub max_age : ℕ
  pub expose_headers : List HeaderName
  pub allow_headers : List HeaderName

-- What a server's builder was told; the layers are in the order in which they were added.
pub record Settings (Identity Layer : Type 0) : Type 0 where
  pub keepalive_interval : Option ℕ
  pub keepalive_timeout : Option ℕ
  pub identity : Option Identity
  pub http1 : Bool
  pub layers : List Layer

pub record Transport (Signalling Addr : Type 0) : Type 1 where
  pub Service : Type 0
  -- `RtcSignallingServer::new`, which is generated, on a service.
  pub new : Signalling → Service
  pub Identity : Type 0
  pub from_pem : String → String → Identity
  pub HeaderName : Type 0
  pub from_static : String → HeaderName
  pub Layer : Type 0
  pub cors : CorsLayer HeaderName → Layer
  pub grpc_web : Layer
  pub Error : Type 0
  pub Builder : Type 0
  pub builder : Builder
  pub http2_keepalive_interval : Option ℕ → Builder → Builder
  pub http2_keepalive_timeout : Option ℕ → Builder → Builder
  pub accept_http1 : Bool → Builder → Builder
  pub layer : Layer → Builder → Builder
  -- With the configuration that has this identity and nothing else.
  pub tls_config : Identity → Builder → Result Error Builder
  -- What the builder was told. A setter changes its setting alone.
  pub settings : Builder → Settings Identity Layer
  pub settings-builder : settings builder ≡ record {
    keepalive_interval = none;
    keepalive_timeout = none;
    identity = none;
    http1 = false;
    layers = [];
  }
  pub settings-interval :
      (d : Option ℕ) (b : Builder)
      → settings (http2_keepalive_interval d b) ≡ record (settings b) { keepalive_interval = d }
  pub settings-timeout :
      (d : Option ℕ) (b : Builder)
      → settings (http2_keepalive_timeout d b) ≡ record (settings b) { keepalive_timeout = d }
  pub settings-http1 :
      (v : Bool) (b : Builder) → settings (accept_http1 v b) ≡ record (settings b) { http1 = v }
  pub settings-layer :
      (l : Layer) (b : Builder)
      → settings (layer l b) ≡ record (settings b) { layers = (settings b).layers ++ l ∷ [] }
  pub settings-tls :
      (i : Identity) (b b' : Builder)
      → tls_config i b ≡ ok b'
      → settings b' ≡ record (settings b) { identity = some i }

module _ {Signalling Addr : Type 0} (T : Transport Signalling Addr) where
  -- The server that is run at last, until its end.
  pub record Running : Type 0 where
    pub builder : T.Builder
    pub service : T.Service
    pub addr : Addr

  unfoldable pub new_svc : Signalling → T.Service
  new_svc signalling = T.new signalling

  unfoldable pub configured : Option (String × String) → T.Builder → Result T.Error T.Builder
  configured none b = ok b
  configured (some (cert_pem, key_pem)) b = T.tls_config (T.from_pem cert_pem key_pem) b

  abbrev pub run : T.Service → Addr → Result T.Error T.Builder → Result T.Error Running
  run service addr (ok b) = ok (record { builder = b; service = service; addr = addr })
  run service addr (err e) = err e

  unfoldable pub serve :
      Signalling → Addr → Option ℕ → Option ℕ → Option (String × String) → Result T.Error Running
  unfolding new_svc configured
  serve signalling addr interval timeout tls_pem = run (new_svc signalling) addr (
      configured tls_pem
        (T.http2_keepalive_timeout timeout (T.http2_keepalive_interval interval T.builder)))

  unfoldable pub exposed_headers : List String
  exposed_headers = "grpc-status" ∷ "grpc-message" ∷ "grpc-status-details-bin" ∷ []

  unfoldable pub allowed_headers : List String
  allowed_headers = "x-grpc-web" ∷ "content-type" ∷ "x-user-agent" ∷ "grpc-timeout" ∷ []

  unfoldable pub cors : CorsLayer T.HeaderName
  unfolding exposed_headers allowed_headers
  cors = record {
    mirrors_origin = true;
    allow_credentials = true;
    max_age = 86400000;
    expose_headers = map T.from_static exposed_headers;
    allow_headers = map T.from_static allowed_headers;
  }

  abbrev pub is_none : {A : Type 0} → Option A → Bool
  is_none none = true
  is_none (some a) = false

  unfoldable pub serve_web :
      Signalling → Addr → Option ℕ → Option ℕ → Option (String × String) → Result T.Error Running
  unfolding new_svc configured cors
  serve_web signalling addr interval timeout tls_pem = run (new_svc signalling) addr (
      configured tls_pem (
        T.http2_keepalive_timeout timeout (
          T.http2_keepalive_interval interval (
            T.layer T.grpc_web
              (T.layer (T.cors cors) (T.accept_http1 (is_none tls_pem) T.builder))))))
