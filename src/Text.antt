-- ===== src/Text.antt =====
-- Byte strings: a Rust String or &[u8] is the list of its bytes. What the source uses of std on
-- them: literals, CString::new, str::replace of NUL, str::is_ascii, and the decimal and debug
-- forms that format! writes.
mod Decimal
mod Utf8
pub use Decimal.{decimal}
unfoldable pub use Decimal.{decimal_value}
pub use Decimal.{decimal_value-decimal, decimal_injective}
unfoldable pub use Utf8.{is_utf8, from_utf8_lossy}
use Prim.Native.Char.{code}
use clipbus.Base.{
  ℕ, String, ◌≡◌, refl, Bool, true, false, Option, none, some, List, [], ◌∷◌, ◌++◌, arith, ltb,
  ◌==◌, if◌then◌else◌, ◌&&◌,
}

abbrev pub Text : Type 0
Text = List ℕ

-- the bytes of a literal, which is ASCII throughout the source
unfoldable pub bytes : String → Text
bytes String.[] = []
bytes (String.◌∷◌ c s) = code c ∷ bytes s

unfoldable pub has_nul : Text → Bool
has_nul [] = false
has_nul (b ∷ bs) = if b == 0 then true else has_nul bs

-- CString::new: the bytes before the terminator, unless one of them is NUL
unfoldable pub c_string : Text → Option Text
unfolding has_nul
c_string s = if has_nul s then none else some s

-- message.replace('\0', " ")
unfoldable pub replace_nul : Text → Text
replace_nul [] = []
replace_nul (b ∷ bs) = (if b == 0 then b' ' else b) ∷ replace_nul bs

unfoldable pub is_ascii : Text → Bool
is_ascii [] = true
is_ascii (b ∷ bs) = ltb b 128 && is_ascii bs

-- the items of a slice under {:?}, with ", " between them
debug_items : Text → Text
debug_items [] = []
debug_items (b ∷ []) = decimal b
debug_items (b ∷ c ∷ bs) = decimal b ++ (b',' ∷ b' ' ∷ debug_items (c ∷ bs))

-- {:?} of a byte slice
unfoldable pub debug : Text → Text
unfolding debug_items
debug s = b'[' ∷ (debug_items s ++ (b']' ∷ []))

-- What the error callback is handed has no NUL inside, so that CString::new always succeeds on it.
pub has_nul-replace_nul : (s : Text) → has_nul (replace_nul s) ≡ false
unfolding has_nul replace_nul
has_nul-replace_nul [] = refl
has_nul-replace_nul (b ∷ bs) = ground (arith, has_nul-replace_nul bs)

pub c_string-replace_nul : (s : Text) → c_string (replace_nul s) ≡ some (replace_nul s)
unfolding c_string
c_string-replace_nul s = ground (arith, has_nul-replace_nul s)
