-- ===== src/Player/Device/Turns.antt =====
-- `audioplayer_initPlayback`, `audioplayer_stopPlayback` and `audioplayer_cleanup` of
-- app/src/main/jni/audioplayer.cpp, one after the other, as far as OpenSL ES goes.
use audio_sync.Base.{
  ℕ, Bool, true, false, ◌≡◌, refl, ap, ◌∙◌, Option, some, List, [], ◌∷◌, ◌++◌, ◌>>=◌, ◌==◌,
  if◌then◌else◌,
}
use audio_sync.Player.OpenSl.{SlResult, success}
use audio_sync.Player.Device.{
  engine, output_mix, player, SlCall, set_rate, set_play_state, destroy, stopped, playing, Device,
  Api, start, stop, cleanup, made, sl, create_engine_objects, cleanup_player, destroy_mix,
  destroy_engine, open_device, open_player, play_device, stop_player, cleanup_device, device_step,
  device_steps,
}
use audio_sync.Player.Device.Protocol.{follow, follow_all}
use audio_sync.Player.Device.Lawful.{
  nothing, unopened, IsLawful, goes_on, Leads, sl-runs, engine_made, player_made,
}

-- Playback is only started when none runs.
abbrev pub InTurn : Bool → List Api → Type 0
InTurn has_player [] = Unit
InTurn has_player (start global_rate rate channels ∷ apis) = (has_player ≡ false) × InTurn true apis
InTurn has_player (stop ∷ apis) = InTurn false apis
InTurn has_player (cleanup ∷ apis) = InTurn false apis

module _ (answer : List SlCall → SlCall → SlResult)
    (works : (calls : List SlCall) (c : SlCall) → answer calls c ≡ success) where
  -- The calls behind the creation of the player.
  abbrev rated : Bool → Device → Device
  rated same d = if same then d else made (set_rate 1000) d

  rated-IsLawful :
      (same : Bool) (d : Device) → IsLawful true true d → IsLawful true true (rated same d)
  unfolding follow
  rated-IsLawful true d l = l
  rated-IsLawful false d l = record {
    follows = goes_on _ (set_rate 1000) l.follows refl;
    engine_object = l.engine_object;
    output_mix_object = l.output_mix_object;
    player_object = l.player_object;
    player_play = l.player_play;
  }

  player_opened :
      (global_rate rate channels : ℕ) (d : Device)
      → IsLawful true false d
      → Leads answer works true true (open_player answer global_rate rate channels d)
  unfolding open_player
  player_opened global_rate rate channels d l =
      let p = player_made answer works rate channels d l in
      record {
        device = rated (global_rate == rate) p.device;
        runs = ap (λ m. m >>= λ d2. some (rated (global_rate == rate) d2)) p.runs;
        lawful = rated-IsLawful (global_rate == rate) p.device p.lawful;
      }

  abbrev opened_first : Bool → Device → Option Device
  opened_first opened d = if opened then some d else create_engine_objects answer d

  pub device_opened :
      (global_rate rate channels : ℕ) (opened : Bool) (d : Device)
      → IsLawful opened false d
      → Leads answer works true true (open_device answer global_rate rate channels d)
  unfolding open_device
  device_opened global_rate rate channels true d l =
      let s = player_opened global_rate rate channels d l in
      record {
        device = s.device;
        runs =
            ap (λ o. opened_first o d >>= open_player answer global_rate rate channels)
              l.engine_object
            ∙ s.runs;
        lawful = s.lawful;
      }
  device_opened global_rate rate channels false d l =
      let e = engine_made answer works d l in
      let s = player_opened global_rate rate channels e.device e.lawful in
      record {
        device = s.device;
        runs =
            ap (λ o. opened_first o d >>= open_player answer global_rate rate channels)
              l.engine_object
            ∙ ap (λ m. m >>= open_player answer global_rate rate channels) e.runs
            ∙ s.runs;
        lawful = s.lawful;
      }

  pub device_played :
      (d : Device) → IsLawful true true d → Leads answer works true true (play_device answer d)
  unfolding play_device follow
  device_played d l = record {
    device = made (set_play_state playing) d;
    runs = sl-runs answer works "audioplayer_initPlayback" (set_play_state playing) d;
    lawful = record {
      follows = goes_on _ (set_play_state playing) l.follows refl;
      engine_object = l.engine_object;
      output_mix_object = l.output_mix_object;
      player_object = l.player_object;
      player_play = l.player_play;
    };
  }

  -- The destruction of an object that there is.
  player_gone :
      (d : Device)
      → d.player_object ≡ true
      → cleanup_player d
        ≡ record (made (destroy player) d) { player_object = false; player_play = false }
  unfolding cleanup_player
  player_gone d h =
      ap
        (λ o.
          if o
          then record (made (destroy player) d) { player_object = false; player_play = false }
          else d)
        h

  no_player : (d : Device) → d.player_object ≡ false → cleanup_player d ≡ d
  unfolding cleanup_player
  no_player d h =
      ap
        (λ o.
          if o
          then record (made (destroy player) d) { player_object = false; player_play = false }
          else d)
        h

  player_stopped :
      (opened has_player : Bool) (d : Device)
      → IsLawful opened has_player d
      → Leads answer works opened false (stop_player answer d)
  unfolding stop_player follow
  player_stopped opened false d l = record {
    device = d;
    runs =
        ap
          (λ o.
            (if o then sl answer "audioplayer_stopPlayback" (set_play_state stopped) d else some d)
            >>= λ d1. some (cleanup_player d1))
          l.player_play
        ∙ ap some (no_player d l.player_object);
    lawful = l;
  }
  player_stopped opened true d l = record {
    device = record (made (destroy player) (made (set_play_state stopped) d)) {
      player_object = false;
      player_play = false;
    };
    runs =
        ap
          (λ o.
            (if o then sl answer "audioplayer_stopPlayback" (set_play_state stopped) d else some d)
            >>= λ d1. some (cleanup_player d1))
          l.player_play
        ∙ ap (λ m. m >>= λ d1. some (cleanup_player d1))
            (sl-runs answer works "audioplayer_stopPlayback" (set_play_state stopped) d)
        ∙ ap some (player_gone (made (set_play_state stopped) d) l.player_object);
    lawful = record {
      follows = goes_on _ (destroy player) (goes_on _ (set_play_state stopped) l.follows refl) refl;
      engine_object = l.engine_object;
      output_mix_object = l.output_mix_object;
      player_object = refl;
      player_play = refl;
    };
  }

  all_destroyed :
      (opened has_player : Bool) (d : Device)
      → IsLawful opened has_player d
      → Leads answer works false false (cleanup_device answer d)
  unfolding cleanup_device destroy_mix destroy_engine follow
  all_destroyed false has_player d l =
      let s = player_stopped false has_player d l in
      record {
        device = s.device;
        runs = simp (s.runs, s.lawful.output_mix_object, s.lawful.engine_object) refl;
        lawful = s.lawful;
      }
  all_destroyed true has_player d l =
      let s = player_stopped true has_player d l in
      record {
        device = record (made (destroy engine) (made (destroy output_mix) s.device)) {
          output_mix_object = false;
          engine_object = false;
        };
        runs = simp (s.runs, s.lawful.output_mix_object, s.lawful.engine_object) refl;
        lawful = record {
          follows =
              goes_on _ (destroy engine) (goes_on _ (destroy output_mix) s.lawful.follows refl)
                refl;
          engine_object = refl;
          output_mix_object = refl;
          player_object = s.lawful.player_object;
          player_play = s.lawful.player_play;
        };
      }

  -- From any lawful state, calls in turn and a clean-up after them end with no object left.
  left_over :
      (apis : List Api) (opened has_player : Bool) (d : Device)
      → IsLawful opened has_player d
      → InTurn has_player apis
      → Leads answer works false false (device_steps answer (apis ++ cleanup ∷ []) d)
  unfolding device_steps device_step
  left_over [] opened has_player d l turn =
      let s = all_destroyed opened has_player d l in
      record { device = s.device; runs = simp s.runs refl; lawful = s.lawful }
  left_over (start global_rate rate channels ∷ apis) opened true d l turn = absurd (cc turn.0)
  left_over (start global_rate rate channels ∷ apis) opened false d l turn =
      let o = device_opened global_rate rate channels opened d l in
      let s = device_played o.device o.lawful in
      let rest = left_over apis true true s.device s.lawful turn.1 in
      record { device = rest.device; runs = simp (o.runs, s.runs) rest.runs; lawful = rest.lawful }
  left_over (stop ∷ apis) opened has_player d l turn =
      let s = player_stopped opened has_player d l in
      let rest = left_over apis opened false s.device s.lawful turn in
      record { device = rest.device; runs = simp s.runs rest.runs; lawful = rest.lawful }
  left_over (cleanup ∷ apis) opened has_player d l turn =
      let s = all_destroyed opened has_player d l in
      let rest = left_over apis false false s.device s.lawful turn in
      record { device = rest.device; runs = simp s.runs rest.runs; lawful = rest.lawful }

  -- If every call of OpenSL ES succeeds and playback is only started when none runs: the application
  -- can start, stop and clean up as often as it likes. Each object is created, realized, used and
  -- destroyed in that order, the player made while engine and mix live and destroyed before them, and
  -- after a last clean-up no object is left.
  pub device_steps-follow :
      (apis : List Api)
      → InTurn false apis
      → (d : Device) × (device_steps answer (apis ++ cleanup ∷ []) unopened ≡ some d)
        × (follow_all d.calls nothing ≡ some nothing)
  unfolding follow_all
  device_steps-follow apis turn =
      let s =
        left_over apis false false unopened
          (record {
            follows = refl;
            engine_object = refl;
            output_mix_object = refl;
            player_object = refl;
            player_play = refl;
          })
          turn in
      (s.device, s.runs, s.lawful.follows)
