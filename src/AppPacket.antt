-- ===== src/AppPacket.antt =====
-- app/src/main/jni/apppacket.c and apppacket.h: the clock functions, and the parser that makes a
-- media format from the text of an RTCP APP packet.
pub mod Clock
pub mod Format
mod Tests
use audio_sync.Base.{
  ℕ, ◌+◌, ◌-◌, ◌*◌, ◌/◌, ◌%◌, ◌^◌, Bool, true, false, ◌||◌, Option, none, some, List, [], ◌∷◌, ◌++◌,
  ltb, ◌==◌, if◌then◌else◌, ◌>>=◌, length, take, drop,
}
use audio_sync.Base.Int.{ℤ, pos, negsuc}
use audio_sync.Decoder.{strncmp_equal}

abbrev pub second_micro : ℕ
second_micro = 1000000

-- A clock of the system gives seconds and nanoseconds, or an error.
abbrev pub ClockReading : Type 0
ClockReading = Option (ℕ × ℕ)

-- The body of `audiosync_systemTimeUs`, `audiosync_monotonicTimeUs`, `audiosync_coarseTimeUs` and
-- `audiosync_coarseAccuracyUs`, which read different clocks.
pub time_us : ClockReading → ℕ
time_us none = 0
time_us (some (sec, nsec)) = sec * second_micro + nsec / 1000

-- `strtok` with the delimiters of `", "`, until it returns the null pointer.
abbrev pub is_delimiter : ℕ → Bool
is_delimiter ch = ch == b',' || ch == b' '

-- A token is not empty.
abbrev pub emit : List ℕ → List (List ℕ) → List (List ℕ)
emit [] tokens = tokens
emit (x ∷ token) tokens = (x ∷ token) ∷ tokens

pub scan : List ℕ → List ℕ → List (List ℕ)
scan token [] = emit token []
scan token (ch ∷ rest) =
    let cut = is_delimiter ch in
    let tokens = scan (if cut then [] else token ++ ch ∷ []) rest in
    if cut then emit token tokens else tokens

-- `strchr`: the rest of the text from the first such character on.
pub strchr : List ℕ → ℕ → Option (List ℕ)
strchr [] ch = none
strchr (x ∷ text) ch = if x == ch then some (x ∷ text) else strchr text ch

-- A `char *`: at a text, or an address that is no text.
pub data CharPtr : Type 0 where
  at : List ℕ → CharPtr
  address : ℕ → CharPtr

-- `strncmp(p, word, n) == 0`; `none` is a read at an invalid address.
pub ptr_equal : CharPtr → List ℕ → ℕ → Option Bool
ptr_equal (at text) word n = some (strncmp_equal n text word)
ptr_equal (address a) word n = none

-- The cast to `int32_t` of the bit pattern of a `long`.
signed32 : ℕ → ℤ
signed32 w = if ltb w (2 ^ 31) then pos w else negsuc (2 ^ 32 - w - 1)

pub to_int32 : ℤ → ℤ
unfolding signed32
to_int32 (pos n) = signed32 (n % 2 ^ 32)
to_int32 (negsuc n) = signed32 (2 ^ 32 - 1 - n % 2 ^ 32)

-- The words that `audiostream_createFormat` compares with.
abbrev int32_word : List ℕ
int32_word = b'i' ∷ b'n' ∷ b't' ∷ b'3' ∷ b'2' ∷ []

abbrev int64_word : List ℕ
int64_word = b'i' ∷ b'n' ∷ b't' ∷ b'6' ∷ b'4' ∷ []

abbrev size_t_word : List ℕ
size_t_word = b's' ∷ b'i' ∷ b'z' ∷ b'e' ∷ b'_' ∷ b't' ∷ []

abbrev float_word : List ℕ
float_word = b'f' ∷ b'l' ∷ b'o' ∷ b'a' ∷ b't' ∷ []

abbrev double_word : List ℕ
double_word = b'd' ∷ b'o' ∷ b'u' ∷ b'b' ∷ b'l' ∷ b'e' ∷ []

abbrev string_word : List ℕ
string_word = b's' ∷ b't' ∷ b'r' ∷ b'i' ∷ b'n' ∷ b'g' ∷ []

pub data Entry (F : Type 0) : Type 0 where
  int32 : ℤ → Entry F
  int64 : ℤ → Entry F
  float : F → Entry F
  string : List ℕ → Entry F

-- `AMediaFormat` as the entries that were set.
abbrev pub Format : Type 0 → Type 0
Format F = List (List ℕ × Entry F)

-- `strtol` and `strtod` give a value and the text behind it; `F` stands for the floats.
module _ {F : Type 0} (strtol : List ℕ → ℤ × List ℕ) (strtod : List ℕ → F × List ℕ) where
  -- The comparisons of `audiostream_createFormat` for one attribute; `stop` is the closing bracket.
  pub set_attribute : Format F → List ℕ → CharPtr → List ℕ → List ℕ → Option (Format F)
  set_attribute format attr type value stop = do
    is_int32 ← ptr_equal type int32_word 5
    is_int64 ← ptr_equal type int64_word 5
    is_size ← ptr_equal type size_t_word 6
    is_double ← ptr_equal type double_word 6
    is_string ← ptr_equal type string_word 6
    let (number, behind) = strtol value
    let (real, after) = strtod value
    let text = take (length value - length stop) value
    some (
        if is_int32
        then if length behind == length stop
          then format ++ (attr, int32 (to_int32 number)) ∷ []
          else format
        else if is_int64
        then if length behind == length stop then format ++ (attr, int64 number) ∷ [] else format
        else if is_size
        then format
        else if strncmp_equal 5 attr float_word || is_double
        then if length after == length stop then format ++ (attr, float real) ∷ [] else format
        else if is_string
        then format ++ (attr, string text) ∷ []
        else format)

  -- The body of the loop. The assignment to `type` makes it the null pointer, and `type++` the
  -- address 1.
  pub parse_attribute : Format F → List ℕ → Option (Format F)
  parse_attribute format attr = elim (strchr attr b':') [
    | none ↦ some format
    | some type ↦ elim (strchr attr b'(') [
      | none ↦ some format
      | some value ↦ elim (strchr value b')') [
        | none ↦ some format
        | some stop ↦ set_attribute format attr (address 1) (drop 1 value) stop
      ]
    ]
  ]

  pub parse_attributes : Format F → List (List ℕ) → Option (Format F)
  parse_attributes format [] = some format
  parse_attributes format (attr ∷ attrs) =
      parse_attribute format attr >>= λ format'. parse_attributes format' attrs

  -- `audiostream_createFormat`. Of a text with no token `attr` is the null pointer, which `strchr`
  -- reads.
  pub create_format : List ℕ → Option (Format F)
  create_format text = elim (scan [] text) [
    | [] ↦ none
    | attr ∷ attrs ↦ parse_attributes [] (attr ∷ attrs)
  ]
