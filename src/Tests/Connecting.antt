-- ===== src/Tests/Connecting.antt =====
-- The builder of signalling clients at a concrete transport.
use just_webrtc.Common.{ℕ, String, ◌≡◌, none, List, [], ◌∷◌}
use just_webrtc.Common.Action.{ok}
use just_webrtc.Client.Builder.{
  Tonic, WebTransport, default, build, web_build, Setting, timeout, tls, settings,
}
use just_webrtc.Client.Connecting.{last_tls, last_timeout, url, NativeOutcome, clients_connect}

-- An endpoint is its URL, and any URL will do.
abbrev transport : Tonic
transport = record {
  Metadata = ℕ;
  with_timeout = λ t. t;
  Endpoint = String;
  TlsConfig = String × String;
  Client = String;
  from_shared = λ u. ok u;
  client_tls_config = λ domain pem. (domain, pem);
  tls_config = λ _ u. ok u;
  connect_timeout = λ _ u. u;
  connect_lazy = λ u. u;
}

abbrev browser_transport : WebTransport
browser_transport = record { Client = String; new = λ u. u }

abbrev some_settings : List Setting
some_settings = timeout 500 ∷ tls "example.org" "-----BEGIN CERTIFICATE-----" ∷ []

clients_connect_example :
    let t = last_tls some_settings none in
    let deadline = last_timeout some_settings 10000 in
    (web_build transport browser_transport (settings some_settings default) "[::1]:4435"
      ≡ ok (record {
        grpc_metadata = deadline;
        inner = url transport browser_transport t "[::1]:4435";
      }))
    × NativeOutcome transport browser_transport t deadline "[::1]:4435"
        (build transport (settings some_settings default) "[::1]:4435")
clients_connect_example = clients_connect transport browser_transport some_settings "[::1]:4435"
