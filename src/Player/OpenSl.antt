-- ===== src/Player/OpenSl.antt =====
-- `_descriptionForResult` and `_checkerror_internal` of app/src/main/jni/audioplayer.cpp.
use Prim.Native.String.{String}
use audio_sync.Base.{ℕ, Option, none, some, List, [], ◌∷◌}

-- An `SLresult` of OpenSL ES.
pub data SlResult : Type 0 where
  success : SlResult
  preconditions_violated : SlResult
  parameter_invalid : SlResult
  memory_failure : SlResult
  resource_error : SlResult
  resource_lost : SlResult
  io_error : SlResult
  buffer_insufficient : SlResult
  content_corrupted : SlResult
  content_unsupported : SlResult
  content_not_found : SlResult
  permission_denied : SlResult
  feature_unsupported : SlResult
  internal_error : SlResult
  operation_aborted : SlResult
  control_lost : SlResult
  another_result : ℕ → SlResult

unfoldable pub description_for_result : SlResult → String
description_for_result success = "SUCCESS"
description_for_result preconditions_violated = "PRECONDITIONS_VIOLATED"
description_for_result parameter_invalid = "PARAMETER_INVALID"
description_for_result memory_failure = "MEMORY_FAILURE"
description_for_result resource_error = "RESOURCE_ERROR"
description_for_result resource_lost = "RESOURCE_LOST"
description_for_result io_error = "IO_ERROR"
description_for_result buffer_insufficient = "BUFFER_INSUFFICIENT"
description_for_result content_corrupted = "CONTENT_CORRUPTED"
description_for_result content_unsupported = "CONTENT_UNSUPPORTED"
description_for_result content_not_found = "CONTENT_NOT_FOUND"
description_for_result permission_denied = "PERMISSION_DENIED"
description_for_result feature_unsupported = "FEATURE_UNSUPPORTED"
description_for_result internal_error = "INTERNAL_ERROR"
description_for_result operation_aborted = "OPERATION_ABORTED"
description_for_result control_lost = "CONTROL_LOST"
description_for_result (another_result code) = "Unknown error code"

-- What is logged: the name of the calling function, and the description. `none` is the exit.
unfoldable pub check_error : SlResult → String → Option (List (String × String))
unfolding description_for_result
check_error success f = some []
check_error buffer_insufficient f = some ((f, description_for_result buffer_insufficient) ∷ [])
check_error result f = none
