-- ===== src/StaticFiles.antt =====
-- The paths of static files: src/app/static_files.cpp.
pub mod Beneath
pub mod Serving
use http.Base.{
  ℕ, zero, suc, ◌+◌, ◌-◌, ◌*◌, Bool, true, false, not, ◌&&◌, ◌||◌, [], ◌∷◌, ◌++◌, Option, none,
  some, Bytes, codes, ◌==◌, if◌then◌else◌, length, drop, find, before, equal,
}
use http.Ascii.{within, is_empty}

-- `none` is -1.
unfoldable pub hex_digit : ℕ → Option ℕ
hex_digit c =
    if within b'0' b'9' c
    then some (c - b'0')
    else if within b'a' b'f' c
    then some (c - b'a' + 10)
    else if within b'A' b'F' c
    then some (c - b'A' + 10)
    else none

-- `if (c == '\0' || c == '\\') return false; decoded.push_back(c);`, and the rounds that follow.
unfoldable pub push_decoded : ℕ → Option Bytes → Option Bytes
push_decoded c following =
    if c == 0 || c == 92 then none else elim following [ none ↦ none | some s ↦ some (c ∷ s) ]

-- The first loop of `sanitize`. A percent sign needs two more bytes.
unfoldable pub decode : Bytes → Option Bytes
unfolding hex_digit push_decoded
decode [] = some []
decode (c ∷ []) = if c == b'%' then none else push_decoded c (some [])
decode (c ∷ d ∷ []) = if c == b'%' then none else push_decoded c (decode (d ∷ []))
decode (c ∷ h ∷ l ∷ s) = elim (c == b'%') [
  | false ↦ push_decoded c (decode (h ∷ l ∷ s))
  | true ↦ elim (hex_digit h) [
    | none ↦ none
    | some hi ↦ elim (hex_digit l) [
      | none ↦ none
      | some lo ↦ push_decoded (hi * 16 + lo) (decode s)
    ]
  ]
]

-- A segment joins the path, unless it is empty or a dot.
unfoldable pub add_segment : Bytes → Bytes → Bytes
unfolding equal
add_segment out segment =
    if not (is_empty segment) && not (equal segment (codes "."))
    then (if not (is_empty out) then out ++ codes "/" else out) ++ segment
    else out

-- The loop over the segments between slashes. Each round drops a slash, so one round more than the
-- string has bytes is enough.
unfoldable pub segments_loop : ℕ → Bytes → Bytes → Option Bytes
unfolding find before equal add_segment
segments_loop zero out rest = none
segments_loop (suc fuel) out rest =
    let slash = find b'/' rest in
    let segment = before slash rest in
    elim (equal segment (codes "..")) [
      | true ↦ none
      | false ↦ elim slash [
        | none ↦ some (add_segment out segment)
        | some i ↦ segments_loop fuel (add_segment out segment) (drop (i + 1) rest)
      ]
    ]

-- `none` where the source returns false.
unfoldable pub sanitize : Bytes → Option Bytes
unfolding decode segments_loop
sanitize url_path = elim (decode url_path) [
  | none ↦ none
  | some decoded ↦ segments_loop (length decoded + 1) [] decoded
]
