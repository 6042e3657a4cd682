-- ===== src/App/Escapes.antt =====
-- A JSON reader undoes `json_escape`.
use http.Base.{
  ℕ, true, false, ◌||◌, [], ◌∷◌, ◌++◌, ◌≡◌, refl, Option, none, some, Bytes, leb, ◌==◌,
  if◌then◌else◌, Bool-cases, inl, inr, ==_iff, append_assoc,
}
use http.App.{escape_byte, json_escape}

abbrev push : ℕ → Option (Bytes × Bytes) → Option (Bytes × Bytes)
push c none = none
push c (some (s, rest)) = some (c ∷ s, rest)

-- A JSON string as a reader takes it, behind its opening quote: what it says up to the closing quote,
-- and what follows that. Control bytes may not stand in it; of the escapes, those of a quote and a
-- backslash are read.
unfoldable pub read_string : Bytes → Option (Bytes × Bytes)
read_string [] = none
read_string (c ∷ []) = if c == b'"' then some ([], []) else none
read_string (c ∷ d ∷ s) =
    let escaped = read_string s in
    let plain = read_string (d ∷ s) in
    if c == b'"'
    then some ([], d ∷ s)
    else if c == 92
    then (if d == b'"' || d == 92 then push d escaped else none)
    else if leb 0x20 c
    then push c plain
    else none

-- The bytes that are not control bytes.
abbrev pub printable : Bytes → Bytes
printable [] = []
printable (c ∷ s) = if leb 0x20 c then c ∷ printable s else printable s

-- A quote behind a string is read, so there is a next byte.
read_plain :
    (c : ℕ) (s rest said : Bytes)
    → (c == b'"') ≡ false
    → (c == 92) ≡ false
    → leb 0x20 c ≡ true
    → read_string s ≡ some (said, rest)
    → read_string (c ∷ s) ≡ some (c ∷ said, rest)
unfolding read_string
read_plain c [] rest said e f g h = absurd (cc)
read_plain c (d ∷ s) rest said e f g h = rw (e, f, g, h) refl

read_escape_byte :
    (c : ℕ) (s rest said : Bytes)
    → read_string s ≡ some (said, rest)
    → read_string (escape_byte c ++ s) ≡ some (if leb 0x20 c then c ∷ said else said, rest)
unfolding escape_byte read_string
read_escape_byte c s rest said h = elim (Bool-cases (c == b'"')) [
  | inl e ↦ let is : c ≡ b'"' = (==_iff c b'"').0 e in rw is (rw (read_string, h) refl)
  | inr e ↦ elim (Bool-cases (c == 92)) [
    | inl f ↦ let is : c ≡ 92 = (==_iff c 92).0 f in rw is (rw (read_string, h) refl)
    | inr f ↦ elim (Bool-cases (leb 0x20 c)) [
      | inl g ↦ rw (e, f, g) (read_plain c s rest said e f g h)
      | inr g ↦ rw (e, f, g) h
    ]
  ]
]

-- Between quotes, what `json_escape` writes is a JSON string, whatever the input, and a reader takes
-- it to say the input without its control bytes: no byte of the input ends the string early or
-- changes what follows it.
pub read_string-json_escape :
    (s rest : Bytes) → read_string (json_escape s ++ (b'"' ∷ rest)) ≡ some (printable s, rest)
unfolding read_string json_escape
read_string-json_escape [] [] = refl
read_string-json_escape [] (c ∷ rest) = refl
read_string-json_escape (c ∷ s) rest =
    rw (append_assoc (escape_byte c) (json_escape s) (b'"' ∷ rest)) (
      read_escape_byte c (json_escape s ++ (b'"' ∷ rest)) rest (printable s)
        (read_string-json_escape s rest))
