-- ===== src/Player/Device/Lawful.antt =====
-- `_createEngine` and `_createBufferQueueAudioPlayer` of app/src/main/jni/audioplayer.cpp use the objects of OpenSL ES in the order of their life cycle.
use Prim.Native.String.{String}
use audio_sync.Base.{
  ℕ, Bool, true, false, ◌≡◌, refl, ◌∙◌, Option, none, some, List, [], ◌∷◌, ◌++◌, ◌>>=◌, ◌*◌, ◌%◌,
  ◌^◌,
}
use audio_sync.Player.OpenSl.{SlResult, success, check_error}
use audio_sync.Player.Device.{
  engine, output_mix, player, SlCall, create_engine, create_output_mix, create_audio_player,
  realize, get_interface, register_callback, Device, player_channels, engine_itf, play,
  buffer_queue, playback_rate, made, sl, create_engine_objects, create_buffer_queue_player,
}
use audio_sync.Player.Device.Protocol.{Life, absent, realized, Objects, follow, follow_all}

-- No object lives, and no call was made.
abbrev pub nothing : Objects
nothing = record { engine_life = absent; mix_life = absent; player_life = absent }

abbrev pub unopened : Device
unopened = record {
  calls = [];
  engine_object = false;
  output_mix_object = false;
  player_object = false;
  player_play = false;
}

abbrev pub life : Bool → Life
life true = realized
life false = absent

-- With the mix there is the engine, and with the player there are both.
abbrev pub objects : Bool → Bool → Objects
objects opened has_player = record {
  engine_life = life opened;
  mix_life = life opened;
  player_life = life has_player;
}

pub record IsLawful (opened has_player : Bool) (d : Device) : Type 0 where
  pub follows : follow_all d.calls nothing ≡ some (objects opened has_player)
  pub engine_object : d.engine_object ≡ opened
  pub output_mix_object : d.output_mix_object ≡ opened
  pub player_object : d.player_object ≡ has_player
  pub player_play : d.player_play ≡ has_player

bind_assoc :
    (u : Option Objects) (f g : Objects → Option Objects) (h : Objects → Option Objects)
    → ((o : Objects) → h o ≡ (f o >>= g))
    → (u >>= h) ≡ (u >>= f >>= g)
bind_assoc none f g h e = refl
bind_assoc (some o) f g h e = e o

follow_all-append :
    (calls more : List SlCall) (o : Objects)
    → follow_all (calls ++ more) o ≡ (follow_all calls o >>= follow_all more)
unfolding follow_all
follow_all-append [] more o = refl
follow_all-append (c ∷ calls) more o =
    bind_assoc (follow c o) (follow_all calls) (follow_all more) (follow_all (calls ++ more))
      (follow_all-append calls more)

-- One more call.
pub goes_on :
    (calls : List SlCall) {o o' : Objects} (c : SlCall)
    → follow_all calls nothing ≡ some o
    → follow c o ≡ some o'
    → follow_all (calls ++ c ∷ []) nothing ≡ some o'
unfolding follow_all
goes_on calls c e h = follow_all-append calls (c ∷ []) nothing ∙ rw e (rw h refl)

-- The device after the calls of a function, one by one.
abbrev pub with_engine : Device → Device
with_engine d = record (made create_engine d) { engine_object = true }

abbrev pub with_mix : Device → Device
with_mix d =
    record (made create_output_mix
      (made (get_interface engine engine_itf) (made (realize engine) (with_engine d)))) {
        output_mix_object = true;
      }

abbrev pub with_player : ℕ → ℕ → Device → Device
with_player channels rate d = record (made (create_audio_player channels rate) d) {
  player_object = true;
}

abbrev pub with_play : ℕ → ℕ → Device → Device
with_play channels rate d =
    record (made (get_interface player play)
      (made (realize player) (with_player channels rate d))) { player_play = true }

abbrev pub with_callback : ℕ → ℕ → Device → Device
with_callback channels rate d = made register_callback (
    made (get_interface player playback_rate)
      (made (get_interface player buffer_queue) (with_play channels rate d)))

module _ (answer : List SlCall → SlCall → SlResult)
    (works : (calls : List SlCall) (c : SlCall) → answer calls c ≡ success) where
  pub sl-runs : (f : String) (c : SlCall) (d : Device) → sl answer f c d ≡ some (made c d)
  unfolding sl check_error
  sl-runs f c d = simp (works d.calls c) refl

  -- A call that succeeds, and where it leaves the device.
  pub record Leads (opened has_player : Bool) (result : Option Device) : Type 0 where
    pub device : Device
    pub runs : result ≡ some device
    pub lawful : IsLawful opened has_player device

  pub engine_made :
      (d : Device) → IsLawful false false d → Leads true false (create_engine_objects answer d)
  unfolding create_engine_objects follow
  engine_made d l = record {
    device = made (realize output_mix) (with_mix d);
    runs = simp sl-runs refl;
    lawful = record {
      follows =
          goes_on _ (realize output_mix)
            (goes_on _ create_output_mix
              (goes_on _ (get_interface engine engine_itf)
                (goes_on _ (realize engine) (goes_on _ create_engine l.follows refl) refl) refl)
              refl)
            refl;
      engine_object = refl;
      output_mix_object = refl;
      player_object = l.player_object;
      player_play = l.player_play;
    };
  }

  pub player_made :
      (rate channels : ℕ) (d : Device)
      → IsLawful true false d
      → Leads true true (create_buffer_queue_player answer rate channels d)
  unfolding create_buffer_queue_player follow
  player_made rate channels d l =
      let c = player_channels channels in
      let r = rate * 1000 % 2 ^ 32 in
      record {
        device = with_callback c r d;
        runs = simp sl-runs refl;
        lawful = record {
          follows =
              goes_on _ register_callback
                (goes_on _ (get_interface player playback_rate)
                  (goes_on _ (get_interface player buffer_queue)
                    (goes_on _ (get_interface player play)
                      (goes_on _ (realize player)
                        (goes_on _ (create_audio_player c r) l.follows refl) refl)
                      refl)
                    refl)
                  refl)
                refl;
          engine_object = l.engine_object;
          output_mix_object = l.output_mix_object;
          player_object = refl;
          player_play = refl;
        };
      }
