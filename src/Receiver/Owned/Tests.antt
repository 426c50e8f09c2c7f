-- ===== src/Receiver/Owned/Tests.antt =====
-- The theorem of the objects of a receiver at a concrete application.
use audio_sync.Base.{suc, ◌+◌, ◌≡◌, [], ◌∷◌, length}
use audio_sync.Receiver.Owned.{refused, accepted, no_codec, receiver_life}
use audio_sync.Receiver.Owned.Once.{Once, failures, refusals, receiver_life-Once}

-- The codec for the format of the start refuses it, and the sender sends three.
receiver_life-Once_example :
    let attempts = no_codec ∷ accepted ∷ refused ∷ [] in
    let e = receiver_life refused attempts in
    Once e.formats e.deleted_formats
    × Once e.codecs e.deleted_codecs
    × (e.formats ≡ suc (length attempts))
    × (length e.deleted_formats + failures (refused ∷ attempts) ≡ suc (length attempts))
    × (length e.deleted_codecs + refusals (refused ∷ attempts) ≡ e.codecs)
receiver_life-Once_example = receiver_life-Once refused (no_codec ∷ accepted ∷ refused ∷ [])
