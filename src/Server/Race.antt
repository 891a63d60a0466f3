-- ===== src/Server/Race.antt =====
-- What a peer listener misses that is opened at a bad time.
use just_webrtc.Common.{
  ℕ, ◌+◌, ◌<◌, ◌≡◌, refl, sym, ap, ◌∙◌, ◌==◌, ==-self, true, false, [], ◌∷◌, length, contains,
  arith,
}
use mathlib.Core.List.{append-nil}
use just_webrtc.Common.Action.{ret}
use just_webrtc.Common.Map.{contains_key, contains_key-insert, contains_key-remove}
use just_webrtc.Proto.{peer_change_of_add, peer_change_of_remove}
use just_webrtc.Known.{known_after}
use just_webrtc.Server.State.{Libs, Signalling, u64_mod, no_listeners}
use just_webrtc.Server.Peers.{insert_new_peer, broadcast_change, remove_peer, initial_peer_changes}
use just_webrtc.Server.Segments.{Interleaving, halt, go, inserts, announces, tears_down, removes}
use just_webrtc.Server.Settled.{removed, drawn}
use just_webrtc.Server.Listening.{quiet, history, learned, learned_changes, snapshot_known}

module _ (L : Libs) where
  -- With no broadcast after the subscription, a listener has learned what it read.
  learned_nothing_more :
      (local_id : ℕ) (read subscribed t : Signalling L) (x : ℕ)
      → t.peer_broadcast ≡ subscribed.peer_broadcast
      → (x == local_id) ≡ false
      → known_after x (learned L local_id read subscribed t) false ≡ contains_key x read.peers
  learned_nothing_more local_id read subscribed t x same other =
      ap (λ cs. known_after x cs false)
        (learned_changes L local_id read subscribed t []
            (ap L.changes.history same ∙ sym (append-nil (history L subscribed)))
            (omega (arith, ap (λ b. length (L.changes.history b)) same))
          ∙ append-nil (initial_peer_changes L local_id read))
      ∙ snapshot_known L read local_id x other

  -- A teardown announces the removal first. A listener that is opened before the peer is
  -- removed, of another peer, takes it to be there, though it is gone once the teardown is done.
  pub phantom_peer :
      (s : Signalling L) (local_id x : ℕ)
      → contains_key x s.peers ≡ true
      → x < s.generator
      → (x == local_id) ≡ false
      → let told = (broadcast_change L (peer_change_of_remove x) s).1 in
        let t = (remove_peer L x told).1 in
        Interleaving L (quiet L s) (record { server = told; announcing = []; removing = x ∷ [] })
        × Interleaving L (record { server = told; announcing = []; removing = x ∷ [] }) (quiet L t)
        × (known_after x (learned L local_id told told t) false ≡ true)
        × (contains_key x t.peers ≡ false)
  unfolding broadcast_change contains
  phantom_peer s local_id x here old other =
      let told = (broadcast_change L (peer_change_of_remove x) s).1 in
      let t = (remove_peer L x told).1 in
      let gone = removed L x told in
      (
        go _ _ _ (tears_down x old refl refl) (halt _),
        go _ _ _ (removes x [] [] refl refl) (halt _),
        learned_nothing_more local_id told told t x (ap (λ r. r.peer_broadcast) gone) other ∙ here,
        ap (λ r. contains_key x r.peers) gone
            ∙ contains_key-remove x x s.peers
            ∙ ground (arith, ==-self x),
      )

  makes :
      (s : Signalling L)
      → contains_key s.generator s.peers ≡ false
      → (insert_new_peer L s).0 ≡ ret s.generator
  unfolding insert_new_peer
  makes s free = ground (arith, free)

  -- A listener that reads the peers before one is inserted, and subscribes after it was announced, does
  -- not know of it.
  pub missed_peer :
      (s : Signalling L) (local_id : ℕ)
      → contains_key s.generator s.peers ≡ false
      → s.generator + 1 < u64_mod
      → (s.generator == local_id) ≡ false
      → let x = s.generator in
        let t = (broadcast_change L (peer_change_of_add x) (insert_new_peer L s).1).1 in
        Interleaving L (quiet L s) (quiet L t)
        × (known_after x (learned L local_id s t t) false ≡ false)
        × (contains_key x t.peers ≡ true)
  unfolding broadcast_change
  missed_peer s local_id free bound other =
      let made : (insert_new_peer L s).0 ≡ ret s.generator = makes s free in
      let (_, _, moved) = drawn L s.generator s made in
      let inserted = (insert_new_peer L s).1 in
      let t = (broadcast_change L (peer_change_of_add s.generator) inserted).1 in
      (
        go _ _ _ (inserts s.generator made bound refl)
            (go _ _ _ (announces s.generator [] [] refl refl) (halt _)),
        learned_nothing_more local_id s t t s.generator refl other ∙ free,
        ap (λ r. contains_key s.generator r.peers) moved
            ∙ contains_key-insert s.generator s.generator (no_listeners L) s.peers
            ∙ ground (arith, ==-self s.generator),
      )
