-- ===== src/Headers.antt =====
-- The class `Headers` of src/http/headers.hpp and src/http/headers.cpp.
pub mod Lookup
pub mod Tokens
use http.Base.{
  ℕ, zero, suc, ◌+◌, Bool, true, false, List, [], ◌∷◌, ◌++◌, Option, none, some, Bytes, codes,
  if◌then◌else◌, length, drop, find, before,
}
use http.Ascii.{iequals, trim_ows}

-- A name and a value.
abbrev pub Field : Type 0
Field = Bytes × Bytes

-- `fields_`, in the order of insertion.
abbrev pub Headers : Type 0
Headers = List Field

-- `Headers::find`, the constant overload: the first field of that name.
unfoldable pub find_field : Headers → Bytes → Option Field
find_field [] name = none
find_field (f ∷ fs) name = if iequals f.0 name then some f else find_field fs name

-- A write through the pointer that the other overload of `Headers::find` returns: `f->second` of the
-- first field of that name becomes `g (f->second)`.
unfoldable pub update_field : Headers → Bytes → (Bytes → Bytes) → Headers
update_field [] name g = []
update_field (f ∷ fs) name g =
    if iequals f.0 name then (f.0, g f.1) ∷ fs else f ∷ update_field fs name g

unfoldable pub set : Headers → Bytes → Bytes → Headers
unfolding find_field update_field
set h name value = elim (find_field h name) [
  | some f ↦ update_field h name (λ _. value)
  | none ↦ h ++ (name, value) ∷ []
]

unfoldable pub add : Headers → Bytes → Bytes → Headers
unfolding find_field update_field
add h name value = elim (find_field h name) [
  | some f ↦ update_field h name (λ old. (old ++ codes ", ") ++ value)
  | none ↦ h ++ (name, value) ∷ []
]

unfoldable pub get : Headers → Bytes → Option Bytes
unfolding find_field
get h name = elim (find_field h name) [ some f ↦ some f.1 | none ↦ none ]

unfoldable pub has : Headers → Bytes → Bool
unfolding find_field
has h name = elim (find_field h name) [ some f ↦ true | none ↦ false ]

-- `fields_.erase(it)` for the first field of that name.
unfoldable pub erase_field : Headers → Bytes → Headers
erase_field [] name = []
erase_field (f ∷ fs) name = if iequals f.0 name then fs else f ∷ erase_field fs name

-- The new list, and whether a field was there.
unfoldable pub remove : Headers → Bytes → Headers × Bool
unfolding find_field erase_field
remove h name = elim (find_field h name) [ some f ↦ (erase_field h name, true) | none ↦ (h, false) ]

-- The loop of `has_token` over what is left of the value. Each round drops at least the comma, so
-- `length rest + 1` rounds are enough.
unfoldable pub has_token_loop : ℕ → Bytes → Bytes → Bool
unfolding iequals trim_ows find before
has_token_loop zero rest token = false
has_token_loop (suc fuel) rest token =
    let comma = find b',' rest in
    elim (iequals (trim_ows (before comma rest)) token) [
      | true ↦ true
      | false ↦ elim comma [ none ↦ false | some i ↦ has_token_loop fuel (drop (i + 1) rest) token ]
    ]

unfoldable pub has_token : Headers → Bytes → Bytes → Bool
unfolding get has_token_loop
has_token h name token = elim (get h name) [
  | none ↦ false
  | some value ↦ has_token_loop (length value + 1) value token
]
