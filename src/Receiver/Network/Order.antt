-- ===== src/Receiver/Network/Order.antt =====
-- The order in which `ReceiverSession::RunNetwork` starts and stops things, by the calls of Trace.
use audio_sync.Base.{
  ℕ, zero, suc, ◌+◌, ◌==◌, ltb, not, length, Option-cases, ◌≡◌, ◌⊎◌, false, true, inl, inr, refl,
  ap, sym, ◌∙◌, Bool, ◌&&◌, none, some, List, [], ◌∷◌, ◌++◌, Bool-cases, if◌then◌else◌,
}
use mathlib.Core.List.{append_assoc}
use audio_sync.Base.Int.{ℤ}
use audio_sync.Decoder.{is_ok}
use audio_sync.Rtp.{RtpPacket}
use audio_sync.Base.Word.{sub32}
use audio_sync.Sender.{extension_header_id}
use audio_sync.Receiver.{
  no_timestamp, size_of_int64, Receiving, first_state, record_first, sync_extension,
  flush_after_jump, handle_packet, handle_packets, monitor_twice, receive,
}
use audio_sync.Receiver.Network.{
  hi_request, Backend, Course, codec_there, default_to, drain, idle, run_stream, run_network,
}
use audio_sync.Receiver.Network.Trace.{
  Step, say, start, init, sync, flush, feed, take_out, bye, stop, monitor, stop_playback, noting,
  is_work, is_take_out, is_monitor, AllOf, Adds, Adds-none, Adds-one, Adds-trans, Adds-if,
  Adds-choice, FindsCodec, finds, none_found,
}

module _ (status : List Step → ℤ) (more : List Step → Bool) (ntohq : List ℕ → ℤ)
    (behind : List ℕ) where
  abbrev back : Backend
  back = noting status more

  sync-Adds :
      (steps : List Step) (pack : RtpPacket) (timestamp : ℕ)
      → Adds is_work steps (sync_extension back.pipeline ntohq steps pack timestamp)
  unfolding sync_extension
  sync-Adds steps pack timestamp = elim (Option-cases pack.extension) [
    | inl e ↦ rw e (Adds-none is_work steps)
    | inr (ext, e) ↦ rw e (
        Adds-if is_work (ext.id == extension_header_id && length ext.bytes == size_of_int64)
          (Adds-one is_work steps (sync (ntohq ext.bytes) timestamp) refl)
          (Adds-none is_work steps))
  ]

  flush-Adds :
      (steps : List Step) (r : Receiving (List Step)) (pack : RtpPacket) (timestamp : ℕ)
      → Adds is_work steps (flush_after_jump back.pipeline ntohq steps r pack timestamp)
  unfolding flush_after_jump
  flush-Adds steps r pack timestamp =
      Adds-if is_work (not (pack.sequence == r.last_seq_num + 1))
        (Adds-if is_work (ltb 50000 (sub32 timestamp r.last_timestamp))
          (Adds-one is_work steps flush refl) (Adds-none is_work steps))
        (Adds-none is_work steps)

  first-Adds :
      (r : Receiving (List Step)) (pack : RtpPacket)
      → Adds is_work r.pipeline (record_first back.pipeline ntohq r pack).pipeline
  unfolding record_first
  first-Adds r pack = elim (Bool-cases (r.begin_timestamp == no_timestamp)) [
    | inl e ↦ rw e (Adds-none is_work r.pipeline)
    | inr e ↦ rw e (Adds-none is_work r.pipeline)
  ]

  packet-Adds :
      (r : Receiving (List Step)) (pack : RtpPacket)
      → Adds is_work r.pipeline (handle_packet back.pipeline ntohq r pack).pipeline
  unfolding handle_packet
  packet-Adds r0 pack =
      let r = record_first back.pipeline ntohq r0 pack in
      let timestamp = sub32 pack.timestamp r.begin_timestamp in
      let synced = sync_extension back.pipeline ntohq r.pipeline pack timestamp in
      let flushed = flush_after_jump back.pipeline ntohq synced r pack timestamp in
      let fed : List Step =
        if pack.marker
        then flushed ++ feed none timestamp ∷ []
        else flushed ++ feed (some pack.payload) timestamp ∷ [] in
      Adds-trans is_work r0.pipeline r.pipeline (fed ++ take_out ∷ []) (first-Adds r0 pack) (
        Adds-trans is_work r.pipeline synced (fed ++ take_out ∷ [])
          (sync-Adds r.pipeline pack timestamp)
          (Adds-trans is_work synced flushed (fed ++ take_out ∷ [])
            (flush-Adds synced r pack timestamp)
            (Adds-trans is_work flushed fed (fed ++ take_out ∷ [])
              (Adds-if is_work pack.marker (Adds-one is_work flushed (feed none timestamp) refl)
                (Adds-one is_work flushed (feed (some pack.payload) timestamp) refl))
              (Adds-one is_work fed take_out refl))))

  packets-Adds :
      (packs : List RtpPacket) (r : Receiving (List Step))
      → Adds is_work r.pipeline (handle_packets back.pipeline ntohq r packs).pipeline
  unfolding handle_packets
  packets-Adds [] r = Adds-none is_work r.pipeline
  packets-Adds (pack ∷ packs) r =
      let next = handle_packet back.pipeline ntohq r pack in
      Adds-trans is_work r.pipeline next.pipeline
        (handle_packets back.pipeline ntohq next packs).pipeline (packet-Adds r pack)
        (packets-Adds packs next)

  monitor-Adds :
      (r : Receiving (List Step))
      → Adds is_work r.pipeline (monitor_twice back.pipeline ntohq r).pipeline
  unfolding monitor_twice
  monitor-Adds r =
      Adds-trans is_work r.pipeline (r.pipeline ++ monitor ∷ [])
        ((r.pipeline ++ monitor ∷ []) ++ monitor ∷ []) (Adds-one is_work r.pipeline monitor refl)
        (Adds-one is_work (r.pipeline ++ monitor ∷ []) monitor refl)

  receive-Adds :
      (passes : List (List RtpPacket)) (r : Receiving (List Step))
      → Adds is_work r.pipeline (receive back.pipeline ntohq r passes).pipeline
  unfolding receive
  receive-Adds [] r = Adds-none is_work r.pipeline
  receive-Adds (packs ∷ passes) r =
      let handled = handle_packets back.pipeline ntohq r packs in
      let next = monitor_twice back.pipeline ntohq handled in
      Adds-choice r.pipeline r.has_input (receive back.pipeline ntohq next passes) r
        (Adds-trans is_work r.pipeline next.pipeline
          (receive back.pipeline ntohq next passes).pipeline
          (Adds-trans is_work r.pipeline handled.pipeline next.pipeline (packets-Adds packs r)
            (monitor-Adds handled))
          (receive-Adds passes next))
        (Adds-none is_work r.pipeline)

  drain-Adds :
      (rounds : ℕ) (going : Bool) (answer : ℤ) (steps : List Step)
      → Adds is_take_out steps (drain back ntohq behind rounds going answer steps)
  unfolding drain
  drain-Adds zero going answer steps = Adds-none is_take_out steps
  drain-Adds (suc rounds) going answer steps =
      Adds-if is_take_out (going && is_ok answer)
        (Adds-trans is_take_out steps (steps ++ take_out ∷ [])
          (drain back ntohq behind rounds (more steps) answer (steps ++ take_out ∷ []))
          (Adds-one is_take_out steps take_out refl)
          (drain-Adds rounds (more steps) answer (steps ++ take_out ∷ [])))
        (Adds-none is_take_out steps)

  idle-Adds :
      (rounds : ℕ) (steps : List Step) → Adds is_monitor steps (idle back ntohq behind rounds steps)
  unfolding idle
  idle-Adds zero steps = Adds-none is_monitor steps
  idle-Adds (suc rounds) steps =
      Adds-trans is_monitor steps (steps ++ monitor ∷ [])
        (idle back ntohq behind rounds (steps ++ monitor ∷ []))
        (Adds-one is_monitor steps monitor refl) (idle-Adds rounds (steps ++ monitor ∷ []))

  -- A stream from its start to its end.
  pub record Streams (rate channels : ℕ) (steps : List Step) : Type 0 where
    pub work : List Step
    pub taken : List Step
    pub monitored : List Step
    pub all_work : AllOf is_work work
    pub all_taken : AllOf is_take_out taken
    pub all_monitored : AllOf is_monitor monitored
    pub in_order :
        steps
        ≡ say (hi_request behind)
          ∷ start
          ∷ init rate channels
          ∷ (work ++ bye ∷ taken ++ stop ∷ monitored ++ stop_playback ∷ [])

  by_steps :
      {rate channels : ℕ} {a b : List Step}
      → a ≡ b
      → Streams rate channels a
      → Streams rate channels b
  by_steps e s = record {
    work = s.work;
    taken = s.taken;
    monitored = s.monitored;
    all_work = s.all_work;
    all_taken = s.all_taken;
    all_monitored = s.all_monitored;
    in_order = sym e ∙ s.in_order;
  }

  abbrev opened : Course → List Step
  opened c =
      say (hi_request behind)
      ∷ start
      ∷ init (default_to 44100 c.sample_rate) (default_to 1 c.channel_count)
      ∷ []

  stream-Streams :
      (c : Course)
      → Streams
          (default_to 44100 c.sample_rate)
          (default_to 1 c.channel_count)
          (run_stream back ntohq behind c (opened c))
  unfolding run_stream
  stream-Streams c =
      let r = receive back.pipeline ntohq (first_state back.pipeline ntohq (opened c)) c.passes in
      let drained =
        drain back ntohq behind c.drains r.has_output r.status (r.pipeline ++ bye ∷ []) in
      let w = receive-Adds c.passes (first_state back.pipeline ntohq (opened c)) in
      let d = drain-Adds c.drains r.has_output r.status (r.pipeline ++ bye ∷ []) in
      let m = idle-Adds c.idles (drained ++ stop ∷ []) in
      record {
        work = w.steps;
        taken = d.steps;
        monitored = m.steps;
        all_work = w.all;
        all_taken = d.all;
        all_monitored = m.all;
        in_order =
            ap (λ s. s ++ stop_playback ∷ [])
              (m.after_before
                ∙ ap (λ s. s ++ stop ∷ [] ++ m.steps)
                    (d.after_before ∙ ap (λ s. s ++ bye ∷ [] ++ d.steps) w.after_before))
            ∙ simp append_assoc refl;
      }

  -- How the thread can end, by what it finds: whether a check finds the codec, whether the session
  -- runs behind that, and whether the codec starts.
  pub data Ran (c : Course) (steps : List Step) : Type 0 where
    no_codec :
        (¬ FindsCodec c.codec_missing) ⊎ (c.running ≡ false)
        → steps ≡ say (hi_request behind) ∷ []
        → Ran c steps
    not_started :
        FindsCodec c.codec_missing
        → c.running ≡ true
        → is_ok (status (say (hi_request behind) ∷ [])) ≡ false
        → steps ≡ say (hi_request behind) ∷ start ∷ []
        → Ran c steps
    streamed :
        FindsCodec c.codec_missing
        → c.running ≡ true
        → is_ok (status (say (hi_request behind) ∷ [])) ≡ true
        → Streams (default_to 44100 c.sample_rate) (default_to 1 c.channel_count) steps
        → Ran c steps

  -- Whatever decoder, player and sender do: the thread first says hi. It ends there if no check finds a
  -- codec while the session runs, or the session does not run behind that, and behind the start of the
  -- codec if the codec does not start. If a codec is found, the session runs and the codec starts, it
  -- starts the player with the rate and the channels of the format, 44100 and 1 by default, works on
  -- packets and monitors the player, says bye, takes out frames, stops the codec, monitors the player
  -- and stops it, in this order.
  pub run_network-Ran : (c : Course) → Ran c (run_network back ntohq behind c [])
  unfolding run_network run_stream
  run_network-Ran c = elim (Bool-cases (codec_there c.codec_missing)) [
    | inr missing ↦ no_codec (inl (none_found c.codec_missing missing)) (simp missing refl)
    | inl there ↦ elim (Bool-cases c.running) [
      | inr stopped ↦ no_codec (inr stopped) (simp (there, stopped) refl)
      | inl running ↦ elim (Bool-cases (is_ok (status (say (hi_request behind) ∷ [])))) [
        | inr failed ↦
            not_started (finds c.codec_missing there) running failed
              (simp (there, running, failed) refl)
        | inl ok ↦
            streamed (finds c.codec_missing there) running ok
              (by_steps (sym (simp (there, running, ok) refl)) (stream-Streams c))
      ]
    ]
  ]
