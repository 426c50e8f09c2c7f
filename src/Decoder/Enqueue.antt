-- ===== src/Decoder/Enqueue.antt =====
-- What `decoder_enqueueBuffer` hands to the codec.
use audio_sync.Base.{
  ℕ, zero, suc, ◌-◌, ◌≤◌, ◌<◌, ◌≡◌, ◌⊎◌, inl, inr, false, true, List, [], ◌∷◌, arith, Bool-cases,
  dec_lt, length, take,
}
use audio_sync.Base.Int.{ℤ, pos, negsuc, ℤ-cases}
use audio_sync.Ndk.{Codec, amedia_ok}
use audio_sync.Decoder.{is_ok}
use audio_sync.Decoder.Stream.{
  caller, past_end, copy_from, Packet, Outcome, done, fault, queue_whole, enqueue_buffer,
}

-- A packet of data, which does not end the stream.
abbrev pub packet : List ℕ → ℤ → Packet
packet bytes timestamp = record { bytes = bytes; timestamp = timestamp; end_of_stream = false }

module _ (c : Codec) where
  open c use {State, dequeue_input, input_capacity, queue_input}

  -- From past the end of the codec's buffer nothing more is queued.
  past_queues_nothing :
      (fuel : ℕ) (st : State) (n : ℕ) (timestamp : ℤ) (log : List Packet) {status : ℤ} {st' : State}
      {log' : List Packet}
      → 0 < n
      → ((s : State) (i : ℕ) → 0 < input_capacity s i)
      → enqueue_buffer c fuel st past_end (pos n) timestamp log ≡ done status st' log'
      → log' ≡ log
  unfolding enqueue_buffer queue_whole copy_from
  past_queues_nothing zero st n timestamp log some_bytes caps e = cc
  past_queues_nothing (suc fuel) st n timestamp log some_bytes caps e =
      elim (ℤ-cases (dequeue_input st).0) [
        | inl (i, found) ↦ ground (arith, found, caps (dequeue_input st).1 i)
        | inr (k, missing) ↦ ground (arith, missing)
      ]

  -- For input buffers that are not empty: if `decoder_enqueueBuffer` returns, it has queued nothing,
  -- or one packet with a prefix of the caller's data and the given time.
  pub enqueue_prefix :
      (fuel : ℕ) (st : State) (bytes : List ℕ) (n : ℕ) (timestamp : ℤ) {status : ℤ} {st' : State}
      {log : List Packet}
      → n ≤ length bytes
      → ((s : State) (i : ℕ) → 0 < input_capacity s i)
      → enqueue_buffer c fuel st (caller bytes) (pos n) timestamp [] ≡ done status st' log
      → (log ≡ []) ⊎ ((k : ℕ) × (k ≤ n) × (log ≡ packet (take k bytes) timestamp ∷ []))
  unfolding enqueue_buffer queue_whole copy_from
  enqueue_prefix zero st bytes n timestamp {status} {st'} {log} enough caps e = cc
  enqueue_prefix (suc fuel) st bytes n timestamp {status} {st'} {log} enough caps e =
      elim (ℤ-cases (dequeue_input st).0) [
        | inl (i, found) ↦
            let st1 = (dequeue_input st).1 in
            let capacity = input_capacity st1 i in
            elim (dec_lt capacity n) [
              | yes cut ↦ inr (
                capacity,
                omega arith,
                ground (
                  arith,
                  found,
                  past_queues_nothing fuel
                      (queue_input st1 i (take capacity bytes) timestamp false).1 (n - capacity)
                      timestamp (packet (take capacity bytes) timestamp ∷ []) {status = status}
                      {st' = st'} {log' = log} (omega arith) caps,
                ),
              )
              | no whole ↦ inr (n, omega arith, ground (arith, found))
            ]
        | inr (k, missing) ↦ inl (ground (arith, missing))
      ]

  -- If the data does not fit into the first buffer, the codec takes the first part and offers a second
  -- buffer, `decoder_enqueueBuffer` reads past the end of the first buffer.
  pub enqueue_cut :
      (fuel : ℕ) (st : State) (bytes : List ℕ) (n : ℕ) (timestamp : ℤ) (i j : ℕ)
      → n ≤ length bytes
      → ((s : State) (k : ℕ) → 0 < input_capacity s k)
      → (dequeue_input st).0 ≡ pos i
      → input_capacity (dequeue_input st).1 i < n
      → (let st1 = (dequeue_input st).1 in
          let (status, st2) =
            queue_input st1 i (take (input_capacity st1 i) bytes) timestamp false in
          (is_ok status ≡ true) × ((dequeue_input st2).0 ≡ pos j))
      → enqueue_buffer c (suc (suc fuel)) st (caller bytes) (pos n) timestamp [] ≡ fault
  unfolding enqueue_buffer queue_whole copy_from
  enqueue_cut fuel st bytes n timestamp i j enough caps found cut next = ground (
    arith,
    found,
    next.1,
    caps
        (dequeue_input
          (queue_input (dequeue_input st).1 i (take (input_capacity (dequeue_input st).1 i) bytes)
            timestamp false).1).1
        j,
  )

  abbrev offered : State → State
  offered st = (dequeue_input st).1

  -- What the codec makes of the first bytes.
  abbrev first_queued : State → ℕ → List ℕ → ℤ → ℤ × State
  first_queued st i bytes timestamp = queue_input (offered st) i bytes timestamp false

  -- How a call with data can go: there is no buffer; the data fits; it is cut, and the codec refuses the
  -- first part; or takes it, and then has no second buffer, or has one.
  pub data Enqueued (st : State) (bytes : List ℕ) (n : ℕ) (timestamp : ℤ) (o : Outcome State)
      : Type 0 where
    no_buffer :
        (k : ℕ)
        → (dequeue_input st).0 ≡ negsuc k
        → o ≡ done amedia_ok (offered st) []
        → Enqueued st bytes n timestamp o
    whole :
        (i : ℕ)
        → (dequeue_input st).0 ≡ pos i
        → n ≤ input_capacity (offered st) i
        → (let (status, st2) = first_queued st i (take n bytes) timestamp in
            o ≡ done status st2 (packet (take n bytes) timestamp ∷ []))
        → Enqueued st bytes n timestamp o
    cut_refused :
        (i : ℕ)
        → (dequeue_input st).0 ≡ pos i
        → input_capacity (offered st) i < n
        → (let part = take (input_capacity (offered st) i) bytes in
            let (status, st2) = first_queued st i part timestamp in
            (is_ok status ≡ false) × (o ≡ done status st2 (packet part timestamp ∷ [])))
        → Enqueued st bytes n timestamp o
    rest_lost :
        (i k : ℕ)
        → (dequeue_input st).0 ≡ pos i
        → input_capacity (offered st) i < n
        → (let part = take (input_capacity (offered st) i) bytes in
            let (status, st2) = first_queued st i part timestamp in
            (is_ok status ≡ true)
            × ((dequeue_input st2).0 ≡ negsuc k)
            × (o ≡ done amedia_ok (offered st2) (packet part timestamp ∷ [])))
        → Enqueued st bytes n timestamp o
    reads_past :
        (i j : ℕ)
        → (dequeue_input st).0 ≡ pos i
        → input_capacity (offered st) i < n
        → (let part = take (input_capacity (offered st) i) bytes in
            let (status, st2) = first_queued st i part timestamp in
            (is_ok status ≡ true) × ((dequeue_input st2).0 ≡ pos j) × (o ≡ fault))
        → Enqueued st bytes n timestamp o

  -- For input buffers that are not empty, with fuel for two rounds: `decoder_enqueueBuffer` ends. Without
  -- a buffer it queues nothing and returns success; data that fits is queued whole, in one packet; of
  -- data that does not fit the first part is queued, and if the codec refuses it, its status is returned.
  -- If the codec takes it, the rest is lost and success returned when there is no second buffer, and when
  -- there is one the call reads past the end of the first.
  pub enqueue_buffer-Enqueued :
      (fuel : ℕ) (st : State) (bytes : List ℕ) (n : ℕ) (timestamp : ℤ)
      → n ≤ length bytes
      → ((s : State) (i : ℕ) → 0 < input_capacity s i)
      → Enqueued st bytes n timestamp
          (enqueue_buffer c (suc (suc fuel)) st (caller bytes) (pos n) timestamp [])
  unfolding enqueue_buffer queue_whole copy_from
  enqueue_buffer-Enqueued fuel st bytes n timestamp enough caps =
      elim (ℤ-cases (dequeue_input st).0) [
        | inr (k, missing) ↦ no_buffer k missing (ground (arith, missing))
        | inl (i, found) ↦
            let capacity = input_capacity (offered st) i in
            let part = take capacity bytes in
            let (status, st2) = first_queued st i part timestamp in
            elim (dec_lt capacity n) [
              | no fits ↦ whole i found (omega arith) (ground (arith, found))
              | yes cut ↦ elim (Bool-cases (is_ok status)) [
                | inr refused ↦ cut_refused i found cut (refused, ground (arith, found, refused))
                | inl taken ↦ elim (ℤ-cases (dequeue_input st2).0) [
                  | inr (k, missing) ↦
                      rest_lost i k found cut
                        (taken, missing, ground (arith, found, taken, missing))
                  | inl (j, again) ↦ reads_past i j found cut (
                    taken,
                    again,
                    enqueue_cut fuel st bytes n timestamp i j enough caps found cut (taken, again),
                  )
                ]
              ]
            ]
      ]
