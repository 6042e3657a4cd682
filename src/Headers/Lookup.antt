-- ===== src/Headers/Lookup.antt =====
-- The header list as a map from names without case: what each operation does to every lookup, and
-- that no two fields share a name.
use http.Base.{
  true, [], ◌∷◌, ◌++◌, none, some, ◌≡◌, refl, arith, Bytes, codes, if◌then◌else◌, Option-cases, inl,
  inr,
}
use http.Ascii.{iequals}
use http.Ascii.Fold.{iequals_iff}
use http.Headers.{Field, Headers, find_field, update_field, set, add, get, has, erase_field, remove}

iequals_sym : (a b : Bytes) → iequals a b ≡ iequals b a
iequals_sym a b = ground (arith, iequals_iff a b, iequals_iff b a)

-- Names that agree are found alike.
iequals_swap : (a b c : Bytes) → iequals a b ≡ true → iequals c a ≡ iequals c b
iequals_swap a b c h = ground (arith, iequals_iff a b, iequals_iff c a, iequals_iff c b)

find_field_congr :
    (h : Headers) (a b : Bytes) → iequals a b ≡ true → find_field h a ≡ find_field h b
unfolding find_field
find_field_congr [] a b e = refl
find_field_congr (f ∷ fs) a b e = rw (iequals_swap a b f.0 e, find_field_congr fs a b e)

find_field-iequals :
    (h : Headers) (name : Bytes) (f : Field) → find_field h name ≡ some f → iequals f.0 name ≡ true
unfolding find_field
find_field-iequals [] name f e = absurd (ground arith)
find_field-iequals (g ∷ fs) name f e = ground (arith, find_field-iequals fs name f)

find_field-update :
    (h : Headers) (name j : Bytes) (g : Bytes → Bytes)
    → find_field (update_field h name g) j ≡ (
        if iequals name j
        then elim (find_field h name) [ some f ↦ some (f.0, g f.1) | none ↦ none ]
        else find_field h j)
unfolding find_field update_field
find_field-update [] name j g = ground arith
find_field-update (f ∷ fs) name j g = ground (
  arith,
  find_field-update fs name j g,
  iequals_iff f.0 name,
  iequals_iff f.0 j,
  iequals_iff name j,
)

find_field-concat :
    (h : Headers) (name value j : Bytes)
    → find_field h name ≡ none
    → find_field (h ++ (name, value) ∷ []) j
      ≡ (if iequals name j then some (name, value) else find_field h j)
unfolding find_field
find_field-concat [] name value j e = refl
find_field-concat (f ∷ fs) name value j e = ground (
  arith,
  find_field-concat fs name value j,
  iequals_iff f.0 name,
  iequals_iff f.0 j,
  iequals_iff name j,
)

-- After `set` the name has the value, in whatever case it is asked for, and all other names have what
-- they had.
pub get-set :
    (h : Headers) (name value j : Bytes)
    → get (set h name value) j ≡ (if iequals name j then some value else get h j)
unfolding get set
get-set h name value j = elim (Option-cases (find_field h name)) [
  | inl e ↦ ground (arith, find_field-concat h name value j e)
  | inr (f, e) ↦ ground (arith, find_field-update h name j (λ _. value))
]

-- After `add` the name has the old value, a comma and a blank, and the new value, or the new value
-- alone if it had none; all other names have what they had.
pub get-add :
    (h : Headers) (name value j : Bytes)
    → get (add h name value) j ≡ (
        if iequals name j
        then some (elim (get h name) [ none ↦ value | some old ↦ (old ++ codes ", ") ++ value ])
        else get h j)
unfolding get add
get-add h name value j = elim (Option-cases (find_field h name)) [
  | inl e ↦ ground (arith, find_field-concat h name value j e)
  | inr (f, e) ↦ ground (arith, find_field-update h name j (λ old. (old ++ codes ", ") ++ value))
]

-- No two fields have names that agree without case.
abbrev pub Distinct : Headers → Type 0
Distinct [] = Unit
Distinct (f ∷ fs) = (find_field fs f.0 ≡ none) × Distinct fs

find_field-erase :
    (h : Headers) (name j : Bytes)
    → Distinct h
    → find_field (erase_field h name) j ≡ (if iequals name j then none else find_field h j)
unfolding find_field erase_field
find_field-erase [] name j d = ground arith
find_field-erase (f ∷ fs) name j d = ground (
  arith,
  find_field-erase fs name j d.1,
  find_field_congr fs f.0 j,
  iequals_iff f.0 name,
  iequals_iff f.0 j,
  iequals_iff name j,
)

-- In a list of distinct names `remove` takes the name away, tells whether it was there, and leaves
-- all other names what they had.
pub get-remove :
    (h : Headers) (name j : Bytes)
    → Distinct h
    → (get (remove h name).0 j ≡ (if iequals name j then none else get h j))
      × ((remove h name).1 ≡ has h name)
unfolding get remove has
get-remove h name j d = elim (Option-cases (find_field h name)) [
  | inl e ↦ ground (arith, find_field_congr h name j)
  | inr (f, e) ↦ ground (arith, find_field-erase h name j d)
]

Distinct-update :
    (h : Headers) (name : Bytes) (g : Bytes → Bytes) → Distinct h → Distinct (update_field h name g)
unfolding update_field
Distinct-update [] name g d = tt
Distinct-update (f ∷ fs) name g d =
    ground
      (arith, Distinct-update fs name g d.1, find_field-update fs name f.0 g, iequals_sym f.0 name)

Distinct-concat :
    (h : Headers) (name value : Bytes)
    → Distinct h
    → find_field h name ≡ none
    → Distinct (h ++ (name, value) ∷ [])
unfolding find_field
Distinct-concat [] name value d e = (refl, tt)
Distinct-concat (f ∷ fs) name value d e = ground (
  arith,
  Distinct-concat fs name value d.1,
  find_field-concat fs name value f.0,
  iequals_sym f.0 name,
)

Distinct-erase : (h : Headers) (name : Bytes) → Distinct h → Distinct (erase_field h name)
unfolding erase_field
Distinct-erase [] name d = tt
Distinct-erase (f ∷ fs) name d =
    ground
      (arith, Distinct-erase fs name d.1, find_field-erase fs name f.0 d.1, iequals_sym f.0 name)

-- `set`, `add` and `remove` keep the names distinct.
pub mutations-Distinct :
    (h : Headers) (name value : Bytes)
    → Distinct h
    → Distinct (set h name value) × Distinct (add h name value) × Distinct (remove h name).0
unfolding set add remove
mutations-Distinct h name value d = elim (Option-cases (find_field h name)) [
  | inl e ↦ ground (arith, Distinct-concat h name value)
  | inr (f, e) ↦ ground (
    arith,
    Distinct-update h name (λ _. value),
    Distinct-update h name (λ old. (old ++ codes ", ") ++ value),
    Distinct-erase h name,
  )
]
