-- ===== src/Receiver/Network/Trace.antt =====
-- The calls that `ReceiverSession::RunNetwork` makes, one after the other.
use audio_sync.Base.{
  ℕ, ◌≡◌, refl, ap, sym, ◌∙◌, Bool, true, false, Option, List, [], ◌∷◌, ◌++◌, if◌then◌else◌,
}
use mathlib.Core.List.{append_assoc, append-nil}
use audio_sync.Base.Int.{ℤ}
use audio_sync.Rtp.{Request}
use audio_sync.Receiver.{Receiving}
use audio_sync.Receiver.Network.{Backend, codec_there}

-- What can be called, on the decoder or around it.
pub data Step : Type 0 where
  say : Request → Step
  start : Step
  init : ℕ → ℕ → Step
  sync : ℤ → ℕ → Step
  flush : Step
  feed : Option (List ℕ) → ℕ → Step
  take_out : Step
  bye : Step
  stop : Step
  monitor : Step
  stop_playback : Step

-- A backend that notes what is called; its answers may depend on all that was called before.
abbrev pub noting : (List Step → ℤ) → (List Step → Bool) → Backend
noting status more = record {
  pipeline = record {
    State = List Step;
    sync = λ steps system playback. steps ++ sync system playback ∷ [];
    flush = λ steps. steps ++ flush ∷ [];
    enqueue = λ steps payload timestamp. (status steps, steps ++ feed payload timestamp ∷ []);
    dequeue = λ steps. (more steps, steps ++ take_out ∷ []);
    monitor = λ steps. steps ++ monitor ∷ [];
  };
  send = λ steps request. steps ++ say request ∷ [];
  start_codec = λ steps. (status steps, steps ++ start ∷ []);
  init_playback = λ steps rate channels. steps ++ init rate channels ∷ [];
  bye_destroy = λ steps. steps ++ bye ∷ [];
  stop_codec = λ steps. steps ++ stop ∷ [];
  stop_playback = λ steps. steps ++ stop_playback ∷ [];
}

-- Steps of the work on packets, and of the two loops at the end.
abbrev pub is_work : Step → Bool
is_work (sync system playback) = true
is_work flush = true
is_work (feed payload timestamp) = true
is_work take_out = true
is_work monitor = true
is_work _ = false

abbrev pub is_take_out : Step → Bool
is_take_out take_out = true
is_take_out _ = false

abbrev pub is_monitor : Step → Bool
is_monitor monitor = true
is_monitor _ = false

abbrev pub AllOf : (Step → Bool) → List Step → Type 0
AllOf test [] = Unit
AllOf test (one ∷ steps) = (test one ≡ true) × AllOf test steps

-- Steps of one kind were added.
pub record Adds (test : Step → Bool) (before after : List Step) : Type 0 where
  pub steps : List Step
  pub all : AllOf test steps
  pub after_before : after ≡ before ++ steps

pub AllOf-append :
    (test : Step → Bool) (a b : List Step) → AllOf test a → AllOf test b → AllOf test (a ++ b)
AllOf-append test [] b ha hb = hb
AllOf-append test (one ∷ a) b ha hb = (ha.0, AllOf-append test a b ha.1 hb)

pub Adds-none : (test : Step → Bool) (before : List Step) → Adds test before before
Adds-none test before = record { steps = []; all = tt; after_before = sym (append-nil before) }

pub Adds-one :
    (test : Step → Bool) (before : List Step) (one : Step)
    → test one ≡ true
    → Adds test before (before ++ one ∷ [])
Adds-one test before one h = record { steps = one ∷ []; all = (h, tt); after_before = refl }

pub Adds-trans :
    (test : Step → Bool) (a b c : List Step) → Adds test a b → Adds test b c → Adds test a c
Adds-trans test a b c f g = record {
  steps = f.steps ++ g.steps;
  all = AllOf-append test f.steps g.steps f.all g.all;
  after_before =
      g.after_before ∙ ap (λ s. s ++ g.steps) f.after_before ∙ append_assoc a f.steps g.steps;
}

pub Adds-if :
    (test : Step → Bool) (c : Bool) {before a b : List Step}
    → Adds test before a
    → Adds test before b
    → Adds test before (if c then a else b)
Adds-if test true f g = f
Adds-if test false f g = g

pub Adds-choice :
    (before : List Step) (c : Bool) (a b : Receiving (List Step))
    → Adds is_work before a.pipeline
    → Adds is_work before b.pipeline
    → Adds is_work before (if c then a else b).pipeline
Adds-choice before true a b f g = f
Adds-choice before false a b f g = g

-- One of the checks finds a codec: `codec` is not NULL there.
abbrev pub FindsCodec : List Bool → Type 0
FindsCodec checks = (before after : List Bool) × (checks ≡ before ++ false ∷ after)

pub finds : (checks : List Bool) → codec_there checks ≡ true → FindsCodec checks
finds [] h = absurd (cc h)
finds (true ∷ checks) h =
    let (before, after, e) = finds checks h in (true ∷ before, after, ap (λ l. true ∷ l) e)
finds (false ∷ checks) h = ([], checks, refl)

found_there : (before after : List Bool) → codec_there (before ++ false ∷ after) ≡ true
found_there [] after = refl
found_there (true ∷ before) after = found_there before after
found_there (false ∷ before) after = refl

pub none_found : (checks : List Bool) → codec_there checks ≡ false → ¬ FindsCodec checks
none_found checks h (before, after, e) =
    absurd (cc (sym h ∙ ap codec_there e ∙ found_there before after))
