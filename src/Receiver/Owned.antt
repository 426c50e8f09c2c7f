-- ===== src/Receiver/Owned.antt =====
-- The formats and codecs of the Android NDK that a receiver of app/src/main/jni/ReceiverSession.cpp
-- makes, holds and deletes, and the destructor in ReceiverSession.h. Objects of a kind are numbered in the order in which they are made.
pub mod Agrees
pub mod Once
mod Tests
use audio_sync.Base.{ℕ, suc, Option, none, some, List, [], ◌∷◌}
use audio_sync.Sender.Release.{delete_if, delete_session}

-- How the calls of `SetFormat` go: no MIME type, no codec for it, a codec that refuses the format, or
-- one that takes it.
pub data Attempt : Type 0 where
  no_mime : Attempt
  no_codec : Attempt
  refused : Attempt
  accepted : Attempt

-- The two pointers of the session, how many objects were made, and those that were deleted.
pub record Objects : Type 0 where
  pub format : Option ℕ
  pub codec : Option ℕ
  pub formats : ℕ
  pub codecs : ℕ
  pub deleted_formats : List ℕ
  pub deleted_codecs : List ℕ

-- `SetFormat` with a format: what the pointers held is deleted for a format, not for a codec.
unfoldable pub assign_format : Objects → Attempt → ℕ → Objects
assign_format s no_mime f = s
assign_format s no_codec f = s
assign_format s refused f = record s { codecs = suc s.codecs }
assign_format s accepted f = record s {
  format = some f;
  codec = some s.codecs;
  codecs = suc s.codecs;
  deleted_formats = delete_if s.format s.deleted_formats;
}

abbrev pub make_format : Objects → Objects
make_format s = record s { formats = suc s.formats }

abbrev pub delete_format : Objects → ℕ → Objects
delete_format s f = record s { deleted_formats = f ∷ s.deleted_formats }

-- A format packet in `OnAPPPacket` whose text was parsed.
unfoldable pub offer_format : Objects → Attempt → Objects
unfolding assign_format
offer_format s a = elim s.format [
  | none ↦ assign_format (make_format s) a s.formats
  | some _ ↦ delete_format (make_format s) s.formats
]

unfoldable pub offer_formats : Objects → List Attempt → Objects
unfolding offer_format
offer_formats s [] = s
offer_formats s (a ∷ attempts) = offer_formats (offer_format s a) attempts

abbrev pub no_objects : Objects
no_objects = record {
  format = none;
  codec = none;
  formats = 0;
  codecs = 0;
  deleted_formats = [];
  deleted_codecs = [];
}

-- The new session of `StartReceiving`, which makes a format and sets it.
unfoldable pub start_format : Attempt → Objects
unfolding assign_format
start_format a = assign_format (make_format no_objects) a 0

-- `~ReceiverSession`, and then the destructor of its base.
unfoldable pub delete_receiver : Objects → Objects
unfolding delete_session
delete_receiver s = record s {
  deleted_formats = delete_session s.format s.deleted_formats;
  deleted_codecs = delete_if s.codec s.deleted_codecs;
}

-- The life of a receiver, from its start over the formats that it receives to its deletion.
unfoldable pub receiver_life : Attempt → List Attempt → Objects
unfolding start_format offer_formats delete_receiver
receiver_life first attempts = delete_receiver (offer_formats (start_format first) attempts)
