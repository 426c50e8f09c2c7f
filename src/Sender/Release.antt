-- ===== src/Sender/Release.antt =====
-- The destructors of the sessions in app/src/main/jni/AudioStreamSession.h and SenderSession.h: which of
-- the objects that a session holds are deleted, in their order.
use audio_sync.Base.{Option, none, some, List, [], ◌∷◌, ◌++◌, map}

-- `if (p) delete(p)`.
abbrev pub delete_if : {O : Type 0} → Option O → List O → List O
delete_if none deleted = deleted
delete_if (some o) deleted = o ∷ deleted

-- `~AudioStreamSession`: the deleted formats after it, the last one first.
unfoldable pub delete_session : {F : Type 0} → Option F → List F → List F
delete_session format deleted_formats = delete_if format deleted_formats

-- An object of the NDK that is deleted.
pub data Deleted (E : Type 0) (F : Type 0) : Type 0 where
  deleted_extractor : E → Deleted E F
  deleted_format : F → Deleted E F

-- `~SenderSession`, and then the destructor of its base.
unfoldable pub delete_sender : {E F : Type 0} → Option E → Option F → List (Deleted E F)
unfolding delete_session
delete_sender extractor format =
    map deleted_extractor (delete_if extractor []) ++ map deleted_format (delete_session format [])
