-- ===== src/Text/Utf8.antt =====
-- UTF-8 as std reads it: str::from_utf8 (behind CStr::to_str), and String::from_utf8_lossy, which
-- writes U+FFFD for each longest run of bytes that begins a character and does not finish it.
use clipbus.Base.{
  ℕ, zero, suc, Bool, true, false, ◌&&◌, List, [], ◌∷◌, ◌++◌, ltb, leb, ◌==◌, if◌then◌else◌,
}

-- Between characters; or inside one, where the next byte is to be from lo to hi, `more` bytes are
-- wanted after it, and `seen` are the bytes of it so far.
pub data Decoder : Type 0 where
  between : Decoder
  inside : (lo hi more : ℕ) → (seen : List ℕ) → Decoder

abbrev in_range : ℕ → ℕ → ℕ → Bool
in_range lo hi b = leb lo b && leb b hi

-- What a step yields: a whole character, nothing yet, or a broken one and where to go on.
pub data Step : Type 0 where
  whole : List ℕ → Step
  partial : Decoder → Step
  broken : Step

first_byte : ℕ → Step
first_byte b =
    if ltb b 0x80
    then whole (b ∷ [])
    else if in_range 0xC2 0xDF b
    then partial (inside 0x80 0xBF 0 (b ∷ []))
    else if b == 0xE0
    then partial (inside 0xA0 0xBF 1 (b ∷ []))
    else if b == 0xED
    then partial (inside 0x80 0x9F 1 (b ∷ []))
    else if in_range 0xE1 0xEF b
    then partial (inside 0x80 0xBF 1 (b ∷ []))
    else if b == 0xF0
    then partial (inside 0x90 0xBF 2 (b ∷ []))
    else if in_range 0xF1 0xF3 b
    then partial (inside 0x80 0xBF 2 (b ∷ []))
    else if b == 0xF4
    then partial (inside 0x80 0x8F 2 (b ∷ []))
    else broken

next_byte : (lo hi more : ℕ) → List ℕ → ℕ → Step
next_byte lo hi zero seen b = if in_range lo hi b then whole (seen ++ b ∷ []) else broken
next_byte lo hi (suc more) seen b =
    if in_range lo hi b then partial (inside 0x80 0xBF more (seen ++ b ∷ [])) else broken

-- the bytes of U+FFFD
abbrev replacement : List ℕ
replacement = 0xEF ∷ 0xBF ∷ 0xBD ∷ []

-- The text written and the decoder after one byte.
abbrev begin_char : Step → List ℕ × Decoder
begin_char (whole c) = (c, between)
begin_char (partial d) = ([], d)
begin_char broken = (replacement, between)

-- A byte that breaks a character off is looked at again as a first byte.
abbrev resume : Step → Step → List ℕ × Decoder
resume (whole c) again = (c, between)
resume (partial d) again = ([], d)
resume broken again = let (out, d) = begin_char again in (replacement ++ out, d)

decode : Decoder → ℕ → List ℕ × Decoder
unfolding first_byte next_byte
decode between b = begin_char (first_byte b)
decode (inside lo hi more seen) b = resume (next_byte lo hi more seen b) (first_byte b)

lossy_from : Decoder → List ℕ → List ℕ
unfolding decode
lossy_from between [] = []
lossy_from (inside lo hi more seen) [] = replacement
lossy_from d (b ∷ bs) = let (out, d') = decode d b in out ++ lossy_from d' bs

-- String::from_utf8_lossy
unfoldable pub from_utf8_lossy : List ℕ → List ℕ
unfolding lossy_from
from_utf8_lossy s = lossy_from between s

abbrev valid_step : Step → (Decoder → Bool) → Bool
valid_step (whole c) rest = rest between
valid_step (partial d) rest = rest d
valid_step broken rest = false

valid_from : Decoder → List ℕ → Bool
unfolding first_byte next_byte
valid_from between [] = true
valid_from (inside lo hi more seen) [] = false
valid_from between (b ∷ bs) = valid_step (first_byte b) (λ d. valid_from d bs)
valid_from (inside lo hi more seen) (b ∷ bs) =
    valid_step (next_byte lo hi more seen b) (λ d. valid_from d bs)

-- str::from_utf8 succeeds
unfoldable pub is_utf8 : List ℕ → Bool
unfolding valid_from
is_utf8 s = valid_from between s
