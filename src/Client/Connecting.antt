-- ===== src/Client/Connecting.antt =====
-- What a built signalling client connects to.
use just_webrtc.Common.{
  ℕ, String, ◌≡◌, refl, subst, inl, inr, ◌⊎◌, true, false, Option, none, some, List, [], ◌∷◌, arith,
}
use Prim.Native.String.{◌++◌}
use just_webrtc.Common.Action.{Result, ok, err, Result-cases}
use just_webrtc.Client.State.{ClientError, invalid_url, tonic_transport}
use just_webrtc.Client.Builder.{
  Tonic, WebTransport, RtcSignallingClientBuilder, RtcSignallingClient, default, set_timeout,
  set_tls, tls_of, native_endpoint, build, web_url, web_build, Setting, timeout, tls, setting,
  settings,
}

-- The last domain and certificate among the calls, if there are any.
unfoldable pub last_tls : List Setting → Option (String × String) → Option (String × String)
last_tls [] before = before
last_tls (timeout t ∷ ss) before = last_tls ss before
last_tls (tls domain tls_ca_pem ∷ ss) before = last_tls ss (some (domain, tls_ca_pem))

unfoldable pub last_timeout : List Setting → ℕ → ℕ
last_timeout [] before = before
last_timeout (timeout t ∷ ss) before = last_timeout ss t
last_timeout (tls domain tls_ca_pem ∷ ss) before = last_timeout ss before

-- What a builder says of TLS: all of it or nothing.
unfoldable pub IsWhole : RtcSignallingClientBuilder → Option (String × String) → Type 0
IsWhole b none = (b.tls_enabled ≡ false) × (b.domain ≡ none) × (b.tls_ca_pem ≡ none)
IsWhole b (some (domain, tls_ca_pem)) =
    (b.tls_enabled ≡ true) × (b.domain ≡ some domain) × (b.tls_ca_pem ≡ some tls_ca_pem)

timeout-IsWhole :
    (t : ℕ) (b : RtcSignallingClientBuilder) (before : Option (String × String))
    → IsWhole b before
    → IsWhole (set_timeout t b) before
unfolding set_timeout IsWhole
timeout-IsWhole t b none whole = whole
timeout-IsWhole t b (some (domain, tls_ca_pem)) whole = whole

tls-IsWhole :
    (domain tls_ca_pem : String) (b : RtcSignallingClientBuilder)
    → IsWhole (set_tls domain tls_ca_pem b) (some (domain, tls_ca_pem))
unfolding set_tls IsWhole
tls-IsWhole domain tls_ca_pem b = (refl, refl, refl)

settings-IsWhole :
    (ss : List Setting) (b : RtcSignallingClientBuilder) (before : Option (String × String))
    → IsWhole b before
    → IsWhole (settings ss b) (last_tls ss before)
      × ((settings ss b).timeout ≡ last_timeout ss b.timeout)
unfolding settings setting set_timeout set_tls last_tls last_timeout
settings-IsWhole [] b before whole = (whole, refl)
settings-IsWhole (timeout t ∷ ss) b before whole =
    settings-IsWhole ss (set_timeout t b) before (timeout-IsWhole t b before whole)
settings-IsWhole (tls domain tls_ca_pem ∷ ss) b before whole =
    settings-IsWhole ss (set_tls domain tls_ca_pem b) (some (domain, tls_ca_pem))
      (tls-IsWhole domain tls_ca_pem b)

tls_of-IsWhole :
    (b : RtcSignallingClientBuilder) (t : Option (String × String)) → IsWhole b t → tls_of b ≡ t
unfolding tls_of IsWhole
tls_of-IsWhole b none (e, d, p) = ground (arith, e, d, p)
tls_of-IsWhole b (some (domain, tls_ca_pem)) (e, d, p) = ground (arith, e, d, p)

module _ (T : Tonic) (W : WebTransport) where
  -- The URL for an address.
  unfoldable pub url : Option (String × String) → String → String
  url none addr = "http://" ++ addr
  url (some t) addr = "https://" ++ addr

  unfoldable pub secure : Option (String × String) → T.Endpoint → Result String T.Endpoint
  secure none endpoint = ok endpoint
  secure (some (domain, tls_ca_pem)) endpoint =
      T.tls_config (T.client_tls_config domain tls_ca_pem) endpoint

  abbrev pub NativeOutcome :
      Option (String × String)
      → ℕ
      → String
      → Result ClientError (RtcSignallingClient T.Metadata T.Client)
      → Type 0
  NativeOutcome t deadline addr out =
      ((e : String) × (T.from_shared (url t addr) ≡ err e) × (out ≡ err invalid_url))
      ⊎ (((p : T.Endpoint) × (e : String) × (T.from_shared (url t addr) ≡ ok p)
            × (secure t p ≡ err e)
            × (out ≡ err (tonic_transport e)))
          ⊎ ((p : T.Endpoint) × (p' : T.Endpoint) × (T.from_shared (url t addr) ≡ ok p)
              × (secure t p ≡ ok p')
              × (out
                  ≡ ok (record {
                    grpc_metadata = T.with_timeout deadline;
                    inner = T.connect_lazy (T.connect_timeout deadline p');
                  }))))

  native_outcome :
      (b : RtcSignallingClientBuilder) (t : Option (String × String)) (addr : String)
      → tls_of b ≡ t
      → NativeOutcome t b.timeout addr (build T b addr)
  unfolding url secure build native_endpoint
  native_outcome b none addr e = elim (Result-cases (T.from_shared ("http://" ++ addr))) [
    | inl (p, found) ↦ inr (inr (p, p, found, refl, ground (arith, e, found)))
    | inr (why, failed) ↦ inl (why, failed, ground (arith, e, failed))
  ]
  native_outcome b (some (domain, pem)) addr e =
      elim (Result-cases (T.from_shared ("https://" ++ addr))) [
        | inr (why, failed) ↦ inl (why, failed, ground (arith, e, failed))
        | inl (p, found) ↦ elim (Result-cases (T.tls_config (T.client_tls_config domain pem) p)) [
          | inl (p', set) ↦ inr (inr (p, p', found, set, ground (arith, e, found, set)))
          | inr (why, failed) ↦ inr (inl (p, why, found, failed, ground (arith, e, found, failed)))
        ]
      ]

  web_url-IsWhole :
      (b : RtcSignallingClientBuilder) (t : Option (String × String)) (addr : String)
      → IsWhole b t
      → web_url T W b addr ≡ url t addr
  unfolding web_url url IsWhole
  web_url-IsWhole b none addr (e, d, p) = ground (arith, e)
  web_url-IsWhole b (some t) addr (e, d, p) = ground (arith, e)

  -- The clients that are built from a default builder after any calls of its setters: each has the
  -- last timeout that was set, or ten seconds, for its requests. The web client is at the `https` URL
  -- if TLS was ever set, and at the `http` URL otherwise. The native client connects, with that
  -- timeout, to the same URL, with the last domain and certificate that were set; it is an error if
  -- that is no URL, or if the transport refuses the TLS configuration.
  pub clients_connect :
      (ss : List Setting) (addr : String)
      → let t = last_tls ss none in
        let deadline = last_timeout ss 10000 in
        (web_build T W (settings ss default) addr
          ≡ ok (record { grpc_metadata = T.with_timeout deadline; inner = W.new (url t addr) }))
        × NativeOutcome t deadline addr (build T (settings ss default) addr)
  unfolding web_build IsWhole default
  clients_connect ss addr =
      let (whole, deadline) = settings-IsWhole ss default none (refl, refl, refl) in
      let b = settings ss default in
      let t = last_tls ss none in
      (
        ground (arith, deadline, web_url-IsWhole b t addr whole),
        subst (λ n. NativeOutcome t n addr (build T b addr)) deadline
            (native_outcome b t addr (tls_of-IsWhole b t whole)),
      )
