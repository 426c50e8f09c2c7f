-- ===== src/Player/Init/Stopped.antt =====
-- `audioplayer_stopPlayback` and `audioplayer_cleanup` of app/src/main/jni/audioplayer.cpp from any
-- state, when the calls of OpenSL ES succeed.
use audio_sync.Base.{
  false, ◌≡◌, refl, ap, ◌∙◌, some, List, ◌>>=◌, if◌then◌else◌, Bool-cases, inl, inr,
}
use audio_sync.Fifo.{deinit}
use audio_sync.Player.OpenSl.{SlResult, success}
use audio_sync.Player.Device.{
  SlCall, stopped, set_play_state, Device, made, sl, cleanup_player, destroy_mix, destroy_engine,
  stop_player, cleanup_device,
}
use audio_sync.Player.Device.Lawful.{sl-runs}
use audio_sync.Player.Init.{Audio, stop_playback, cleanup_audio}

cleanup_player-gone : (d : Device) → (cleanup_player d).player_object ≡ false
unfolding cleanup_player
cleanup_player-gone d = elim (Bool-cases d.player_object) [ inl e ↦ rw e refl | inr e ↦ rw e refl ]

destroy_mix-gone : (d : Device) → (destroy_mix d).output_mix_object ≡ false
unfolding destroy_mix
destroy_mix-gone d = elim (Bool-cases d.output_mix_object) [ inl e ↦ rw e refl | inr e ↦ rw e refl ]

destroy_mix-player : (d : Device) → (destroy_mix d).player_object ≡ d.player_object
unfolding destroy_mix
destroy_mix-player d = elim (Bool-cases d.output_mix_object) [
  | inl e ↦ rw e refl
  | inr e ↦ rw e refl
]

destroy_engine-gone : (d : Device) → (destroy_engine d).engine_object ≡ false
unfolding destroy_engine
destroy_engine-gone d = elim (Bool-cases d.engine_object) [ inl e ↦ rw e refl | inr e ↦ rw e refl ]

destroy_engine-others :
    (d : Device)
    → ((destroy_engine d).player_object ≡ d.player_object)
      × ((destroy_engine d).output_mix_object ≡ d.output_mix_object)
unfolding destroy_engine
destroy_engine-others d = elim (Bool-cases d.engine_object) [
  | inl e ↦ rw e (refl, refl)
  | inr e ↦ rw e (refl, refl)
]

-- No object of OpenSL ES is left.
abbrev pub NoObjects : Device → Type 0
NoObjects d = (d.player_object ≡ false) × (d.output_mix_object ≡ false) × (d.engine_object ≡ false)

module _ (answer : List SlCall → SlCall → SlResult)
    (works : (calls : List SlCall) (c : SlCall) → answer calls c ≡ success) where
  stop_player_lem :
      (d : Device) → (d' : Device) × (stop_player answer d ≡ some d') × (d'.player_object ≡ false)
  unfolding stop_player
  stop_player_lem d = elim (Bool-cases d.player_play) [
    | inr e ↦ (cleanup_player d, simp e refl, cleanup_player-gone d)
    | inl e ↦
        let d1 = made (set_play_state stopped) d in
        (
          cleanup_player d1,
          ap
                (λ o.
                  (if o
                    then sl answer "audioplayer_stopPlayback" (set_play_state stopped) d
                    else some d)
                  >>= λ d2. some (cleanup_player d2))
                e
              ∙ ap (λ m. m >>= λ d2. some (cleanup_player d2))
                  (sl-runs answer works "audioplayer_stopPlayback" (set_play_state stopped) d),
          cleanup_player-gone d1,
        )
  ]

  module _ {A : Type 0} where
    -- The player is gone.
    pub stop_playback_lem :
        (s : Audio A)
        → (s' : Audio A) × (stop_playback answer s ≡ some s') × (s'.device.player_object ≡ false)
    unfolding stop_playback
    stop_playback_lem s =
        let (d, e, gone) = stop_player_lem s.device in
        (
          record s { device = d; playback = record s.playback { fifo = deinit s.playback.fifo } },
          simp e refl,
          gone,
        )

    pub cleanup_audio_lem :
        (s : Audio A) → (s' : Audio A) × (cleanup_audio answer s ≡ some s') × NoObjects s'.device
    unfolding cleanup_audio cleanup_device
    cleanup_audio_lem s =
        let (d, e, gone) = stop_player_lem s.device in
        let mixless = destroy_mix d in
        (
          record s {
            device = destroy_engine mixless;
            playback = record s.playback { fifo = deinit s.playback.fifo };
            fifo_buffer = false;
          },
          simp e refl,
          (
            (destroy_engine-others mixless).0 ∙ destroy_mix-player d ∙ gone,
            (destroy_engine-others mixless).1 ∙ destroy_mix-gone d,
            destroy_engine-gone mixless,
          ),
        )
