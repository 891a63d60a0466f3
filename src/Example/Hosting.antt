-- ===== src/Example/Hosting.antt =====
-- examples/signalling-server/src/main.rs, whose two servers share one `Signalling`, and the default addresses
-- of crates/just-webrtc-signalling/src/lib.rs. Parsing an address is a parameter.
use just_webrtc.Common.{ℕ, String, ◌≡◌, refl, ap, ◌∙◌, inl, inr, none, some, arith}
use just_webrtc.Common.Action.{Result, ok, err}
use just_webrtc.Server.Served.{Serves, servers_run}
use just_webrtc.Server.Serving.{Settings, Transport, Running, serve, serve_web}

abbrev pub default_native_server_addr : String
default_native_server_addr = "[::1]:10000"

abbrev pub default_web_server_addr : String
default_web_server_addr = "[::1]:10001"

abbrev pub keepalive_interval : ℕ
keepalive_interval = 5000

module _ {Signalling Addr : Type 0} (T : Transport Signalling Addr) where
  abbrev pub Server : Type 0
  Server = Result T.Error (Running T)

  -- The native and the web server, which then run concurrently.
  unfoldable pub main :
      {E : Type 0} → (String → Result E Addr) → Signalling → Result E (Server × Server)
  main parse signalling = elim (parse default_native_server_addr) [
    | err e ↦ err e
    | ok addr ↦ elim (parse default_web_server_addr) [
      | err e ↦ err e
      | ok web_addr ↦ ok (
        serve T signalling addr (some keepalive_interval) none none,
        serve_web T signalling web_addr (some keepalive_interval) none none,
      )
    ]
  ]

  -- What runs without TLS.
  abbrev Hosts : Signalling → Addr → Server → Type 0
  Hosts signalling addr server =
      (r : Running T) × (server ≡ ok r)
      × (r.service ≡ T.new signalling)
      × (r.addr ≡ addr)
      × ((T.settings r.builder).identity ≡ none)

  Serves-Hosts :
      (signalling : Signalling) (addr : Addr) (told : Settings T.Identity T.Layer) (server : Server)
      → told.identity ≡ none
      → Serves T signalling addr none told server
      → Hosts signalling addr server
  Serves-Hosts signalling addr told server e (inl (_, _, (_, _, _, given, _, _))) =
      ground (arith, given)
  Serves-Hosts signalling addr told server e (inr (b, runs, as_told)) =
      (_, runs, refl, refl, ap (λ (s : Settings T.Identity T.Layer). s.identity) as_told ∙ e)

  -- If both default addresses parse, both servers run, each at its address, without TLS, and on the
  -- same `Signalling`.
  main_lem :
      {E : Type 0} (parse : String → Result E Addr) (signalling : Signalling) (addr web_addr : Addr)
      → parse default_native_server_addr ≡ ok addr
      → parse default_web_server_addr ≡ ok web_addr
      → (native web : Server) × (main parse signalling ≡ ok (native, web))
        × Hosts signalling addr native
        × Hosts signalling web_addr web
  unfolding main
  main_lem parse signalling addr web_addr e e' =
      let told = servers_run T signalling addr (some keepalive_interval) none none in
      let web_told = servers_run T signalling web_addr (some keepalive_interval) none none in
      (
        serve T signalling addr (some keepalive_interval) none none,
        serve_web T signalling web_addr (some keepalive_interval) none none,
        ground (arith, e, e'),
        Serves-Hosts signalling addr _ _ refl told.0,
        Serves-Hosts signalling web_addr _ _ refl web_told.1,
      )
