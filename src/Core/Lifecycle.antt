-- ===== src/Core/Lifecycle.antt =====
-- What the application sees of its sessions.
use audio_sync.Base.{
  ℕ, ◌<◌, ◌≡◌, refl, sym, ap, ◌∙◌, ◌/◌, Bool, true, false, ◌&&◌, Option, none, some, List, ◌==◌,
  if◌then◌else◌, ◌>>=◌, Bool-cases, inl, inr, arith,
}
use audio_sync.Base.Int.{pos, negsuc}
use audio_sync.Player.OpenSl.{SlResult, success}
use audio_sync.Player.Device.{SlCall}
use audio_sync.Player.Init.{Audio}
use audio_sync.Player.Init.Stopped.{stop_playback_lem, cleanup_audio_lem}
use audio_sync.Core.{
  Kind, sender, receiver, Session, Core, is_sender, stop, free, put_session, deref, ask, change,
  start, stop_services, deinit_audio, is_running, is_sending, current_presentation_time,
}

same : (i : ℕ) → (i == i) ≡ true
same i = ground arith

and_true : (b : Bool) → (b && true) ≡ b
and_true true = refl
and_true false = refl

and_false : (b : Bool) → (b && false) ≡ false
and_false true = refl
and_false false = refl

other : (i j : ℕ) → i < j → (i == j) ≡ false
other i j h = ground arith

stop-running : (s : Session) → (stop s).is_running ≡ false
stop-running s = elim (Bool-cases s.is_running) [ inl e ↦ simp e refl | inr e ↦ simp e refl ]

stop-freed : (s : Session) → (stop s).freed ≡ s.freed
stop-freed s = elim (Bool-cases s.is_running) [ inl e ↦ simp e refl | inr e ↦ simp e refl ]

alive_freed :
    (b : Bool) (x s : Session)
    → x.freed ≡ b
    → (if b then none else some x) ≡ some s
    → s.freed ≡ false
alive_freed true x s e h = absurd (cc h)
alive_freed false x s e h = let here : x ≡ s = cc h in ap (λ y. y.freed) (sym here) ∙ e

deref-freed : (c : Core) (i : ℕ) (s : Session) → deref c i ≡ some s → s.freed ≡ false
unfolding deref
deref-freed c i s alive = alive_freed (c.sessions i).freed (c.sessions i) s refl alive

-- A session is found where it was put.
deref-put_session :
    (c : Core) (i : ℕ) (x : Session)
    → deref (put_session c i x) i ≡ (if x.freed then none else some x)
unfolding deref
deref-put_session c i x =
    ap (λ b. let y = if b then x else c.sessions i in if y.freed then none else some y) (same i)

ask_lem {ℓ} :
    {B : Type ℓ} (c : Core) (p : Option ℕ) (i : ℕ) (s : Session) (default : B)
    (answer : Session → B)
    → p ≡ some i
    → deref c i ≡ some s
    → ask p c default answer ≡ some (answer s)
unfolding ask
ask_lem c p i s default answer at alive =
    ap (λ q. ask q c default answer) at ∙ ap (λ o. o >>= λ x. some (answer x)) alive

change_lem :
    (c : Core) (p : Option ℕ) (i : ℕ) (s : Session) (act : Session → Session)
    → p ≡ some i
    → deref c i ≡ some s
    → change p c act ≡ some (put_session c i (act s))
unfolding change
change_lem c p i s act at alive =
    ap (λ q. change q c act) at ∙ ap (λ o. o >>= λ x. some (put_session c i (act x))) alive

change_lost :
    (c : Core) (p : Option ℕ) (i : ℕ) (act : Session → Session)
    → p ≡ some i
    → deref c i ≡ none
    → change p c act ≡ none
unfolding change
change_lost c p i act at lost =
    ap (λ q. change q c act) at ∙ ap (λ o. o >>= λ x. some (put_session c i (act x))) lost

module _ {A : Type 0} (answer : List SlCall → SlCall → SlResult)
    (works : (calls : List SlCall) (c : SlCall) → answer calls c ≡ success) where
  -- If `audioSession` points to a session that was not deleted, and the calls of OpenSL ES succeed,
  -- `stopServices` succeeds, and then nothing runs or sends, there is no presentation time, and the
  -- player is destroyed.
  pub stop_services_lem :
      (c : Core) (audio : Audio A) (time_us : Session → ℕ) (i : ℕ) (s : Session)
      → c.audio_session ≡ some i
      → deref c i ≡ some s
      → (c' : Core) × (audio' : Audio A) × (stop_services answer c audio ≡ some (c', audio'))
        × (is_running c' ≡ some false)
        × (is_sending c' ≡ some false)
        × (current_presentation_time time_us c' ≡ some (negsuc 0))
        × (audio'.device.player_object ≡ false)
  unfolding stop_services is_running is_sending current_presentation_time
  stop_services_lem c audio time_us i s at alive =
      let c' = put_session c i (stop s) in
      let stopped : deref c' i ≡ some (stop s) =
        deref-put_session c i (stop s)
        ∙ ap (λ b. if b then none else some (stop s)) (stop-freed s ∙ deref-freed c i s alive) in
      let (audio', quiet, gone) = stop_playback_lem answer works audio in
      (
        c',
        audio',
        simp (change_lem c c.audio_session i s stop at alive, quiet) refl,
        ask_lem c' c.audio_session i (stop s) false (λ x. x.is_running) at stopped
            ∙ ap some (stop-running s),
        ask_lem c' c.audio_session i (stop s) false (λ x. is_sender x && x.is_running) at stopped
            ∙ ap some (
                ap (λ b. is_sender (stop s) && b) (stop-running s)
                ∙ and_false (is_sender (stop s))),
        ask_lem c' c.audio_session i (stop s) (negsuc 0)
              (λ x. if x.is_running then pos (time_us x / 1000) else negsuc 0) at stopped
            ∙ ap (λ b. some (if b then pos (time_us (stop s) / 1000) else negsuc 0))
                (stop-running s),
        gone,
      )

  -- If `audioSession` points to a session that was not deleted, and the calls of OpenSL ES succeed,
  -- `deinitAudio` deletes the session, destroys all objects of the player, and leaves the pointer: the
  -- next question, and the next `stopServices`, is an access to freed memory.
  pub deinit_audio_lem :
      (c : Core) (audio : Audio A) (i : ℕ) (s : Session)
      → c.audio_session ≡ some i
      → deref c i ≡ some s
      → (c' : Core) × (audio' : Audio A) × (deinit_audio answer c audio ≡ some (c', audio'))
        × (audio'.device.player_object ≡ false)
        × (audio'.device.output_mix_object ≡ false)
        × (audio'.device.engine_object ≡ false)
        × (is_running c' ≡ none)
        × (stop_services answer c' audio' ≡ none)
  unfolding deinit_audio is_running stop_services ask
  deinit_audio_lem c audio i s at alive =
      let c' = put_session c i (free (stop s)) in
      let lost : deref c' i ≡ none = deref-put_session c i (free (stop s)) in
      let (audio', cleaned, (no_player, no_mix, no_engine)) =
        cleanup_audio_lem answer works audio in
      (
        c',
        audio',
        simp (change_lem c c.audio_session i s (λ x. free (stop x)) at alive, cleaned) refl,
        no_player,
        no_mix,
        no_engine,
        ap (λ q. ask q c' false (λ x. x.is_running)) at
            ∙ ap (λ o. o >>= λ x. some x.is_running) lost,
        simp (change_lost c' c.audio_session i stop at lost) refl,
      )

-- After a start the new session runs, and it sends if it is a sender. The session that `audioSession`
-- pointed to before is left as it was, so it goes on if it was running, and nothing points to it any
-- more.
pub start_lem :
    (kind : Kind) (c : Core) (i : ℕ) (s : Session)
    → c.audio_session ≡ some i
    → deref c i ≡ some s
    → i < c.next
    → (is_running (start kind c) ≡ some true)
      × (is_sending (start kind c) ≡ some (elim kind [ sender ↦ true | receiver ↦ false ]))
      × (deref (start kind c) i ≡ some s)
      × ((start kind c).audio_session ≡ some c.next)
unfolding start is_running is_sending ask deref
start_lem kind c i s at alive before = (
  rw (same c.next) refl,
  rw (same c.next) (ap some (and_true (elim kind [ sender ↦ true | receiver ↦ false ]))),
  rw (other i c.next before) alive,
  refl,
)
