-- ===== src/Server/Served.antt =====
-- What the servers that run were told.
use just_webrtc.Common.{
  ℕ, String, ◌≡◌, refl, sym, ap, ◌∙◌, ◌⊎◌, inl, inr, false, Option, none, some, [], ◌∷◌,
}
use just_webrtc.Common.Action.{Result, ok, err, Result-cases}
use just_webrtc.Server.Serving.{
  Settings, Transport, Running, new_svc, configured, run, serve, cors, is_none, serve_web,
}

module _ {Signalling Addr : Type 0} (T : Transport Signalling Addr) where
  abbrev pub identity_of : Option (String × String) → Option T.Identity
  identity_of none = none
  identity_of (some (cert_pem, key_pem)) = some (T.from_pem cert_pem key_pem)

  abbrev with_identity :
      Option T.Identity → Settings T.Identity T.Layer → Settings T.Identity T.Layer
  with_identity i told = record told { identity = i }

  -- The one error is that of the TLS configuration.
  abbrev pub Refuses : Option (String × String) → Settings T.Identity T.Layer → T.Error → Type 0
  Refuses tls_pem told e =
      (cert_pem : String) × (key_pem : String) × (b : T.Builder) × (tls_pem
        ≡ some (cert_pem, key_pem))
      × (T.settings b ≡ record told { identity = none })
      × (T.tls_config (T.from_pem cert_pem key_pem) b ≡ err e)

  abbrev pub Serves :
      Signalling
      → Addr
      → Option (String × String)
      → Settings T.Identity T.Layer
      → Result T.Error (Running T)
      → Type 0
  Serves signalling addr tls_pem told out =
      ((e : T.Error) × (out ≡ err e) × Refuses tls_pem told e)
      ⊎ ((b : T.Builder) × (out
            ≡ ok (record { builder = b; service = T.new signalling; addr = addr }))
          × (T.settings b ≡ told))

  run-Serves :
      (signalling : Signalling) (addr : Addr) (tls_pem : Option (String × String)) (b : T.Builder)
      (told : Settings T.Identity T.Layer)
      → T.settings b ≡ record told { identity = none }
      → told.identity ≡ identity_of tls_pem
      → Serves signalling addr tls_pem told
          (run T (new_svc T signalling) addr (configured T tls_pem b))
  unfolding new_svc configured
  run-Serves signalling addr none b told e i =
      inr (b, refl, e ∙ ap (λ j. with_identity j told) (sym i))
  run-Serves signalling addr (some (cert_pem, key_pem)) b told e i =
      elim (Result-cases (T.tls_config (T.from_pem cert_pem key_pem) b)) [
        | inl (b', set) ↦ inr (
          b',
          ap (run T (T.new signalling) addr) set,
          T.settings-tls (T.from_pem cert_pem key_pem) b b' set
              ∙ ap (with_identity (some (T.from_pem cert_pem key_pem))) e
              ∙ ap (λ j. with_identity j told) (sym i),
        )
        | inr (why, failed) ↦ inl (
          why,
          ap (run T (T.new signalling) addr) failed,
          (cert_pem, key_pem, b, refl, e, failed),
        )
      ]

  -- Either server runs the service of the given `Signalling` at the given address, unless a certificate
  -- and a key are given and the transport refuses them, which is the error. What runs has the given
  -- keepalives, and uses TLS, with that certificate and key, exactly if they are given: it never falls
  -- back. The native server has no layers and refuses HTTP/1; the web server has the CORS layer and
  -- then that of gRPC-web, and accepts HTTP/1 exactly if it does not use TLS.
  pub servers_run :
      (signalling : Signalling) (addr : Addr) (interval timeout : Option ℕ)
      (tls_pem : Option (String × String))
      → Serves signalling addr tls_pem
          (record {
            keepalive_interval = interval;
            keepalive_timeout = timeout;
            identity = identity_of tls_pem;
            http1 = false;
            layers = [];
          })
          (serve T signalling addr interval timeout tls_pem)
        × Serves signalling addr tls_pem
            (record {
              keepalive_interval = interval;
              keepalive_timeout = timeout;
              identity = identity_of tls_pem;
              http1 = is_none T tls_pem;
              layers = T.cors (cors T) ∷ T.grpc_web ∷ [];
            })
            (serve_web T signalling addr interval timeout tls_pem)
  unfolding serve serve_web
  servers_run signalling addr interval timeout tls_pem =
      let http1 = T.accept_http1 (is_none T tls_pem) T.builder in
      let with_cors = T.layer (T.cors (cors T)) http1 in
      let with_web = T.layer T.grpc_web with_cors in
      (
        run-Serves signalling addr tls_pem _ _
            (rw
              (
                T.settings-timeout timeout (T.http2_keepalive_interval interval T.builder),
                T.settings-interval interval T.builder,
                T.settings-builder,
              )
              refl)
            refl,
        run-Serves signalling addr tls_pem _ _
            (rw
              (
                T.settings-timeout timeout (T.http2_keepalive_interval interval with_web),
                T.settings-interval interval with_web,
                T.settings-layer T.grpc_web with_cors,
                T.settings-layer (T.cors (cors T)) http1,
                T.settings-http1 (is_none T tls_pem) T.builder,
                T.settings-builder,
              )
              refl)
            refl,
      )
