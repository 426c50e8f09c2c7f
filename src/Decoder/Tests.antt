-- ===== src/Decoder/Tests.antt =====
-- Runs of app/src/main/jni/decoder.c with a codec and an extractor that are small functions.
use audio_sync.Base.{
  ℕ, ◌-◌, ◌≤◌, ◌≡◌, ◌⊎◌, refl, false, Option, none, some, List, [], ◌∷◌, arith, ltb, if◌then◌else◌,
  take,
}
use audio_sync.Base.Int.{pos, negsuc}
use audio_sync.Ndk.{Codec, Extractor}
use audio_sync.Decoder.{select_audio_track}
use audio_sync.Decoder.Stream.{caller, copy_from, fault, queue_whole, enqueue_buffer}
use audio_sync.Decoder.Enqueue.{
  packet, enqueue_prefix, enqueue_cut, Enqueued, enqueue_buffer-Enqueued,
}
use audio_sync.Decoder.Select.{Chosen, select_audio_track-Chosen}

-- A codec with buffers of two bytes; its state is the number of the buffers that are free.
abbrev tiny : Codec
tiny = record {
  State = ℕ;
  dequeue_input = λ free. if ltb 0 free then (pos free, free - 1) else (negsuc 0, free);
  input_capacity = λ free idx. 2;
  queue_input = λ free idx bytes timestamp eos. (pos 0, free);
  dequeue_output = λ free. (
    negsuc 0,
    record { offset = 0; size = pos 0; presentation_time_us = pos 0; end_of_stream = false },
    free,
  );
  output_bytes = λ free idx. [];
  release_output = λ free idx. (pos 0, free);
}

-- A file with a text track, and then one of audio.
abbrev clip : Extractor
clip = record {
  State = List (Option (List ℕ));
  track_mimes = λ tracks. tracks;
  select_track = λ tracks idx. (pos 0, tracks);
  read_sample = λ tracks capacity. (negsuc 0, []);
  sample_time = λ tracks. pos 0;
  advance = λ tracks. tracks;
}

abbrev text_track : Option (List ℕ)
text_track = some (b't' ∷ b'/' ∷ [])

enqueue_prefix_example :
    (packet (1 ∷ 2 ∷ []) (pos 7) ∷ [] ≡ [])
    ⊎ ((k : ℕ) × (k ≤ 3)
        × (packet (1 ∷ 2 ∷ []) (pos 7) ∷ [] ≡ packet (take k (1 ∷ 2 ∷ 3 ∷ [])) (pos 7) ∷ []))
unfolding enqueue_buffer queue_whole copy_from
enqueue_prefix_example =
    enqueue_prefix tiny 2 1 (1 ∷ 2 ∷ 3 ∷ []) 3 (pos 7) (omega arith) (λ s i. omega arith) refl

-- There is one buffer only, and the last byte is lost.
enqueue_buffer-Enqueued_example :
    Enqueued tiny 1
      (1 ∷ 2 ∷ 3 ∷ [])
      3
      (pos 7)
      (enqueue_buffer tiny 2 1 (caller (1 ∷ 2 ∷ 3 ∷ [])) (pos 3) (pos 7) [])
enqueue_buffer-Enqueued_example =
    enqueue_buffer-Enqueued tiny 0 1 (1 ∷ 2 ∷ 3 ∷ []) 3 (pos 7) (omega arith) (λ s i. omega arith)

enqueue_cut_example : enqueue_buffer tiny 2 5 (caller (1 ∷ 2 ∷ 3 ∷ [])) (pos 3) (pos 7) [] ≡ fault
enqueue_cut_example =
    enqueue_cut tiny 0 5 (1 ∷ 2 ∷ 3 ∷ []) 3 (pos 7) 5 4 (omega arith) (λ s i. omega arith) refl
      (omega arith) (refl, refl)

select_audio_track-Chosen_example :
    Chosen clip
      (text_track ∷ none ∷ [])
      0
      (text_track ∷ none ∷ [])
      (select_audio_track clip (text_track ∷ none ∷ []))
select_audio_track-Chosen_example = select_audio_track-Chosen clip (text_track ∷ none ∷ [])
