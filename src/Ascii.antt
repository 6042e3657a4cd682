-- ===== src/Ascii.antt =====
-- The ASCII helpers at the top of src/http/headers.hpp and src/http/headers.cpp.
pub mod Fold
pub mod Trim
use http.Base.{
  ℕ, ◌+◌, ◌-◌, Bool, true, false, not, ◌&&◌, ◌||◌, [], ◌∷◌, Bytes, leb, ◌==◌, if◌then◌else◌, length,
}

-- `c` lies in the closed range.
abbrev pub within : ℕ → ℕ → ℕ → Bool
within lo hi c = leb lo c && leb c hi

unfoldable pub ascii_lower : ℕ → ℕ
ascii_lower c = if within b'A' b'Z' c then c + (b'a' - b'A') else c

-- The loop of `iequals`; the sizes are known to agree.
unfoldable pub same_folded : Bytes → Bytes → Bool
unfolding ascii_lower
same_folded [] b = true
same_folded (x ∷ a) [] = false
same_folded (x ∷ a) (y ∷ b) = ascii_lower x == ascii_lower y && same_folded a b

unfoldable pub iequals : Bytes → Bytes → Bool
unfolding same_folded
iequals a b = if not (length a == length b) then false else same_folded a b

-- The letters, the digits and the fifteen marks of the `switch`.
unfoldable pub is_tchar : ℕ → Bool
is_tchar c =
    if within b'0' b'9' c || within b'a' b'z' c || within b'A' b'Z' c
    then true
    else c == b'!'
      || c == b'#'
      || c == b'$'
      || c == b'%'
      || c == b'&'
      || c == 39
      || c == b'*'
      || c == b'+'
      || c == b'-'
      || c == b'.'
      || c == b'^'
      || c == b'_'
      || c == b'`'
      || c == b'|'
      || c == b'~'

unfoldable pub all_tchar : Bytes → Bool
unfolding is_tchar
all_tchar [] = true
all_tchar (c ∷ s) = is_tchar c && all_tchar s

abbrev pub is_empty : Bytes → Bool
is_empty [] = true
is_empty (c ∷ s) = false

unfoldable pub is_token : Bytes → Bool
unfolding all_tchar
is_token s = not (is_empty s) && all_tchar s

abbrev pub is_ows : ℕ → Bool
is_ows c = c == b' ' || c == b'\t'

-- `while (!s.empty() && ows(s.front())) s.remove_prefix(1)`
unfoldable pub trim_front : Bytes → Bytes
trim_front [] = []
trim_front (c ∷ s) = if is_ows c then trim_front s else c ∷ s

-- `while (!s.empty() && ows(s.back())) s.remove_suffix(1)`: a byte goes when all behind it has gone
-- and it is blank itself.
unfoldable pub trim_back : Bytes → Bytes
trim_back [] = []
trim_back (c ∷ s) = let rest = trim_back s in if is_empty rest && is_ows c then [] else c ∷ rest

unfoldable pub trim_ows : Bytes → Bytes
unfolding trim_front trim_back
trim_ows s = trim_back (trim_front s)
