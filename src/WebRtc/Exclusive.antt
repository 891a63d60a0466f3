-- ===== src/WebRtc/Exclusive.antt =====
-- A remote offer and channel options exclude one another, whatever the calls of the builder.
use just_webrtc.Common.{
  ◌≡◌, refl, ◌≢◌, ◌⊎◌, inl, inr, Bool, Option, none, some, List, [], ◌∷◌, arith,
}
use just_webrtc.Common.Action.{Result-cases, ok, err, ret}
use just_webrtc.WebRtc.Types.{SessionDescription, default_options}
use just_webrtc.WebRtc.Builder.{
  PeerConnectionBuilder, conflicting_build_options, ChannelOptions, new, with_remote_offer,
  with_channel_options, simple_local, simple_remote, Call, call, calls,
}

abbrev pub IsExclusive : PeerConnectionBuilder → Type 0
IsExclusive b = (b.remote_offer ≡ none) ⊎ (b.channel_options ≡ [])

call-IsExclusive :
    (c : Call) (b b' : PeerConnectionBuilder) → IsExclusive b → call c b ≡ ok b' → IsExclusive b'
unfolding call
call-IsExclusive c b b' x e = ground arith

calls_from-IsExclusive :
    (cs : List Call) (b b' : PeerConnectionBuilder)
    → IsExclusive b
    → calls cs b ≡ ok b'
    → IsExclusive b'
unfolding calls
calls_from-IsExclusive [] b b' x e = ground arith
calls_from-IsExclusive (c ∷ cs) b b' x e = elim (Result-cases (call c b)) [
  | inl (b'', done) ↦
      calls_from-IsExclusive cs b'' b' (call-IsExclusive c b b'' x done) (ground arith)
  | inr (why, failed) ↦ ground arith
]

-- No sequence of successful calls on a new builder sets both a remote offer and channel options.
pub calls-IsExclusive :
    (cs : List Call) (b : PeerConnectionBuilder) → calls cs new ≡ ok b → IsExclusive b
unfolding new
calls-IsExclusive cs b e = calls_from-IsExclusive cs new b (inl refl) e

-- A call of `with_remote_offer` or of `with_channel_options` fails exactly if the other option is set;
-- otherwise it replaces its own option and nothing else.
pub with_options_exact :
    (b : PeerConnectionBuilder) (o : Option SessionDescription) (cs : ChannelOptions)
    → (((b.channel_options ≡ []) × (with_remote_offer o b ≡ ok (record b { remote_offer = o })))
        ⊎ ((b.channel_options ≢ []) × (with_remote_offer o b ≡ err conflicting_build_options)))
      × (((b.remote_offer ≡ none)
            × (with_channel_options cs b ≡ ok (record b { channel_options = cs })))
          ⊎ ((b.remote_offer ≢ none) × (with_channel_options cs b ≡ err conflicting_build_options)))
unfolding with_remote_offer with_channel_options
with_options_exact b o cs = ground arith

-- The simple builders do not panic: one has exactly one channel, with the given ordering, and no remote
-- offer; the other has the given offer and no channel.
pub simple_builders :
    (ordered : Bool) (o : SessionDescription)
    → (simple_local ordered
        ≡ ret (record new {
          channel_options =
              ("simple_channel_", record default_options { ordered = some ordered }) ∷ [];
        }))
      × (simple_remote o ≡ ret (record new { remote_offer = some o }))
unfolding simple_local simple_remote
simple_builders ordered o = (refl, refl)
