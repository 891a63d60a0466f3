-- ===== src/WebRtc/Wasm/Ids.antt =====
-- The ids that the web `build` gives its channels.
use just_webrtc.Common.{
  ℕ, suc, ◌+◌, ◌≤◌, ◌<◌, ◌≡◌, refl, ap, ◌∙◌, none, some, List, [], ◌∷◌, length, false, contains,
  AllDistinct, All, arith,
}
use just_webrtc.WebRtc.Types.{DataChannelOptions}
use just_webrtc.WebRtc.Builder.{ChannelOptions}
use just_webrtc.WebRtc.Wasm.Foreign.{RtcDataChannelInit}
use just_webrtc.WebRtc.Wasm.Convert.{channel_id, data_channel_dict}

-- The dictionaries of the channels from an index on, and the ids in them.
unfoldable pub dicts : ℕ → ChannelOptions → List RtcDataChannelInit
dicts index [] = []
dicts index ((label_prefix, o) ∷ os) = data_channel_dict index o ∷ dicts (suc index) os

unfoldable pub ids : List RtcDataChannelInit → List ℕ
ids [] = []
ids (d ∷ ds) = elim d.id [ none ↦ ids ds | some id ↦ id ∷ ids ds ]

abbrev pub NotNegotiated : ChannelOptions → Type 0
NotNegotiated os = All (λ o. o.1.negotiated ≡ none) os

ids_later :
    (x index : ℕ) (os : ChannelOptions)
    → NotNegotiated os
    → x < index
    → index + length os ≤ 65536
    → contains x (ids (dicts index os)) ≡ false
unfolding ids dicts data_channel_dict channel_id contains
ids_later x index [] free before bound = refl
ids_later x index ((label_prefix, o) ∷ os) (f, free) before bound =
    ground (arith, f, ids_later x (suc index) os free (omega arith) (omega arith))

channel_id_index :
    (index : ℕ) (o : DataChannelOptions)
    → o.negotiated ≡ none
    → index < 65536
    → channel_id index o ≡ index
unfolding channel_id
channel_id_index index o f bound = ground (arith, f)

ids_distinct :
    (index : ℕ) (os : ChannelOptions)
    → NotNegotiated os
    → index + length os ≤ 65536
    → AllDistinct (ids (dicts index os))
unfolding ids dicts data_channel_dict channel_id
ids_distinct index [] free bound = tt
ids_distinct index ((label_prefix, o) ∷ os) (f, free) bound =
    let at : channel_id index o ≡ index = channel_id_index index o f (omega arith) in
    (
      ap (λ x. contains x (ids (dicts (suc index) os))) at
          ∙ ids_later index (suc index) os free (omega arith) (omega arith),
      ids_distinct (suc index) os free (omega arith),
    )

ids_bounded :
    (index : ℕ) (os : ChannelOptions)
    → NotNegotiated os
    → All (λ id. id < 65536) (ids (dicts index os))
unfolding ids dicts data_channel_dict channel_id
ids_bounded index [] free = tt
ids_bounded index ((label_prefix, o) ∷ os) (f, free) =
    (ground (arith, f), ids_bounded (suc index) os free)

-- The ids in the dictionaries of at most 65536 channels of which none is negotiated are distinct, and
-- fit in 16 bits.
pub web_channel_ids :
    (os : ChannelOptions)
    → NotNegotiated os
    → length os ≤ 65536
    → AllDistinct (ids (dicts 0 os)) × All (λ id. id < 65536) (ids (dicts 0 os))
web_channel_ids os free bound =
    (ids_distinct 0 os free (omega (arith, bound)), ids_bounded 0 os free)
