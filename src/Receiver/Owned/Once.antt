-- ===== src/Receiver/Owned/Once.antt =====
-- A receiver deletes no object twice, and what it does not delete are the objects of the attempts that
-- failed.
use audio_sync.Base.{
  ℕ, suc, ◌+◌, ◌≤◌, ◌≡◌, refl, none, some, List, [], ◌∷◌, length, arith, ◌==◌, ltb, if◌then◌else◌,
}
use audio_sync.Receiver.Owned.{
  Attempt, no_mime, no_codec, refused, accepted, Objects, assign_format, offer_format,
  offer_formats, start_format, delete_receiver, receiver_life,
}
use audio_sync.Sender.Release.{delete_session}

-- How often a number stands in a list.
unfoldable pub times : ℕ → List ℕ → ℕ
times i [] = 0
times i (j ∷ js) = let rest = times i js in if i == j then suc rest else rest

-- The attempts up to the first that is accepted, and those of them that make a codec.
unfoldable pub failures : List Attempt → ℕ
failures [] = 0
failures (accepted ∷ attempts) = 0
failures (no_mime ∷ attempts) = suc (failures attempts)
failures (no_codec ∷ attempts) = suc (failures attempts)
failures (refused ∷ attempts) = suc (failures attempts)

unfoldable pub refusals : List Attempt → ℕ
refusals [] = 0
refusals (accepted ∷ attempts) = 0
refusals (no_mime ∷ attempts) = refusals attempts
refusals (no_codec ∷ attempts) = refusals attempts
refusals (refused ∷ attempts) = suc (refusals attempts)

-- Every number below `made` stands in a list at most once, and no other does.
abbrev pub Once : ℕ → List ℕ → Type 0
Once made js = (i : ℕ) → times i js ≤ (if ltb i made then 1 else 0)

Once-none : (n : ℕ) → Once n []
unfolding times
Once-none n i = ground arith

Once-single : (c : ℕ) → Once (suc c) (c ∷ [])
unfolding times
Once-single c i = ground arith

-- The next number is deleted while another is held.
Once-insert : (n f : ℕ) (js : List ℕ) → Once n (f ∷ js) → Once (suc n) (f ∷ n ∷ js)
unfolding times
Once-insert n f js h i = let now = h i in ground arith

-- What is left of a session at its end.
abbrev Ends : ℕ → ℕ → ℕ → ℕ → Objects → Type 0
Ends formats deleted leaked leaked_codecs e =
    Once e.formats e.deleted_formats
    × Once e.codecs e.deleted_codecs
    × (e.formats ≡ formats)
    × (length e.deleted_formats + leaked ≡ deleted)
    × (length e.deleted_codecs + leaked_codecs ≡ e.codecs)

Ends-recount :
    (n n' k k' l l' m m' : ℕ) (e : Objects)
    → Ends n k l m e
    → n ≡ n'
    → k + l' ≡ k' + l
    → m ≡ m'
    → Ends n' k' l' m' e
Ends-recount n n' k k' l l' m m' e (a, b, formats, deleted, codecs) hn hk hm =
    (a, b, omega arith, omega arith, omega arith)

abbrev holding : ℕ → ℕ → ℕ → List ℕ → Objects
holding f c n deleted = record {
  format = some f;
  codec = some c;
  formats = n;
  codecs = suc c;
  deleted_formats = deleted;
  deleted_codecs = [];
}

abbrev waiting : ℕ → ℕ → Objects
waiting n m = record {
  format = none;
  codec = none;
  formats = n;
  codecs = m;
  deleted_formats = [];
  deleted_codecs = [];
}

-- The end of a session from a state, over the formats that it still receives.
after : Objects → List Attempt → Objects
unfolding delete_receiver offer_formats
after s attempts = delete_receiver (offer_formats s attempts)

holding-Ends :
    (f c n : ℕ) (deleted : List ℕ) (attempts : List Attempt)
    → Once n (f ∷ deleted)
    → Ends
        (n + length attempts)
        (suc (length deleted) + length attempts)
        0
        c
        (after (holding f c n deleted) attempts)
unfolding after delete_receiver delete_session offer_formats offer_format
holding-Ends f c n deleted [] h = (h, Once-single c, omega arith, omega arith, omega arith)
holding-Ends f c n deleted (a ∷ attempts) h =
    let rest = holding-Ends f c (suc n) (n ∷ deleted) attempts (Once-insert n f deleted h) in
    Ends-recount _ _ _ _ 0 0 c c (after (holding f c (suc n) (n ∷ deleted)) attempts) rest
      (omega arith) (omega arith) refl

waiting-Ends :
    (n m : ℕ) (attempts : List Attempt)
    → Ends
        (n + length attempts)
        (length attempts)
        (failures attempts)
        (m + refusals attempts)
        (after (waiting n m) attempts)
unfolding after delete_receiver delete_session offer_formats offer_format assign_format failures
    refusals
waiting-Ends n m [] = (Once-none n, Once-none m, omega arith, omega arith, omega arith)
waiting-Ends n m (no_mime ∷ attempts) =
    let rest = waiting-Ends (suc n) m attempts in
    Ends-recount _ _ _ _ _ _ _ _ (after (waiting (suc n) m) attempts) rest (omega arith)
      (omega arith) refl
waiting-Ends n m (no_codec ∷ attempts) =
    let rest = waiting-Ends (suc n) m attempts in
    Ends-recount _ _ _ _ _ _ _ _ (after (waiting (suc n) m) attempts) rest (omega arith)
      (omega arith) refl
waiting-Ends n m (refused ∷ attempts) =
    let rest = waiting-Ends (suc n) (suc m) attempts in
    Ends-recount _ _ _ _ _ _ _ _ (after (waiting (suc n) (suc m)) attempts) rest (omega arith)
      (omega arith) (omega arith)
waiting-Ends n m (accepted ∷ attempts) =
    let rest = holding-Ends n m (suc n) [] attempts (Once-single n) in
    Ends-recount _ _ _ _ _ _ _ _ (after (holding n m (suc n) []) attempts) rest (omega arith)
      (omega arith) (omega arith)

-- Whatever the codecs of the device make of the format of the start and of those that the sender
-- sends, a receiver deletes no format and no codec twice, and none that was not made; it makes one
-- format for the start and one for each that was sent; at its end all of them are deleted but one for
-- each attempt that failed before the first that is accepted, and all codecs but those that refused
-- a format before that.
pub receiver_life-Once :
    (first : Attempt) (attempts : List Attempt)
    → let e = receiver_life first attempts in
      Once e.formats e.deleted_formats
      × Once e.codecs e.deleted_codecs
      × (e.formats ≡ suc (length attempts))
      × (length e.deleted_formats + failures (first ∷ attempts) ≡ suc (length attempts))
      × (length e.deleted_codecs + refusals (first ∷ attempts) ≡ e.codecs)
unfolding receiver_life start_format offer_formats offer_format after
receiver_life-Once first attempts =
    let all = first ∷ attempts in
    Ends-recount (0 + length all) _ _ _ _ _ (0 + refusals all) _ (after (waiting 0 0) all)
      (waiting-Ends 0 0 all) (omega arith) refl (omega arith)
