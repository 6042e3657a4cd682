-- ===== src/Ascii/Trim.antt =====
-- What `trim_ows` leaves.
use http.Base.{
  if◌then◌else◌, ℕ, true, false, ◌&&◌, [], ◌∷◌, ◌++◌, ◌≡◌, ◌≢◌, refl, ap, ◌∙◌, Bytes, Bool-cases,
  inl, inr, All,
}
use http.Ascii.{is_ows, is_empty, trim_front, trim_back, trim_ows}

abbrev IsBlank : ℕ → Type 0
IsBlank c = is_ows c ≡ true

-- The first byte is not blank, nor is the last one.
abbrev pub StartsSolid : Bytes → Type 0
StartsSolid [] = Unit
StartsSolid (c ∷ s) = is_ows c ≡ false

abbrev pub EndsSolid : Bytes → Type 0
EndsSolid [] = Unit
EndsSolid (c ∷ []) = is_ows c ≡ false
EndsSolid (c ∷ d ∷ s) = EndsSolid (d ∷ s)

-- `v` is the middle of `s` between blanks, and neither begins nor ends with one.
pub record Trimmed (s v : Bytes) : Type 0 where
  pub left : Bytes
  pub right : Bytes
  pub splits : s ≡ left ++ (v ++ right)
  pub left_blank : All IsBlank left
  pub right_blank : All IsBlank right
  pub starts : StartsSolid v
  pub ends : EndsSolid v

trim_front_splits :
    (s : Bytes) → (l : Bytes) × (s ≡ l ++ trim_front s) × All IsBlank l × StartsSolid (trim_front s)
unfolding trim_front
trim_front_splits [] = ([], refl, tt, tt)
trim_front_splits (c ∷ s) = elim (Bool-cases (is_ows c)) [
  | inl b ↦
      let (l, e, bl, st) = trim_front_splits s in (c ∷ l, rw b (ap (◌∷◌ c) e), (b, bl), rw b st)
  | inr b ↦ ([], rw b, tt, rw b b)
]

abbrev BackSplits : Bytes → Bytes → Type 0
BackSplits s v = (r : Bytes) × (s ≡ v ++ r) × All IsBlank r × EndsSolid v

-- One byte more in front: it stays, unless all behind it has gone and it is blank.
BackSplits-cons :
    (c : ℕ) (s v : Bytes)
    → BackSplits s v
    → BackSplits (c ∷ s) (if is_empty v && is_ows c then [] else c ∷ v)
BackSplits-cons c s [] (r, e, b, n) = elim (Bool-cases (is_ows c)) [
  | inl h ↦ rw h (c ∷ r, ap (◌∷◌ c) e, (h, b), tt)
  | inr h ↦ rw h (r, ap (◌∷◌ c) e, b, h)
]
BackSplits-cons c s (d ∷ v) (r, e, b, n) = (r, ap (◌∷◌ c) e, b, n)

trim_back_splits : (s : Bytes) → BackSplits s (trim_back s)
unfolding trim_back
trim_back_splits [] = ([], refl, tt, tt)
trim_back_splits (c ∷ s) = BackSplits-cons c s (trim_back s) (trim_back_splits s)

trim_back-StartsSolid : (s : Bytes) → StartsSolid s → StartsSolid (trim_back s)
unfolding trim_back
trim_back-StartsSolid [] h = tt
trim_back-StartsSolid (c ∷ s) h = elim (Bool-cases (is_empty (trim_back s))) [
  | inl e ↦ rw (e, h) h
  | inr e ↦ rw e h
]

-- `trim_ows` takes away the blanks at both ends and nothing else.
pub trim_ows-Trimmed : (s : Bytes) → Trimmed s (trim_ows s)
unfolding trim_ows
trim_ows-Trimmed s =
    let (l, e, lb, st) = trim_front_splits s in
    let (r, e', rb, en) = trim_back_splits (trim_front s) in
    record {
      left = l;
      right = r;
      splits = e ∙ ap (◌++◌ l) e';
      left_blank = lb;
      right_blank = rb;
      starts = trim_back-StartsSolid (trim_front s) st;
      ends = en;
    }

trim_front_solid : (v r : Bytes) → StartsSolid v → v ≢ [] → trim_front (v ++ r) ≡ v ++ r
unfolding trim_front
trim_front_solid [] r h n = absurd (n refl)
trim_front_solid (c ∷ v) r h n = rw h

trim_front_blank : (l s : Bytes) → All IsBlank l → trim_front (l ++ s) ≡ trim_front s
unfolding trim_front
trim_front_blank [] s b = refl
trim_front_blank (c ∷ l) s b = rw (b.0) (trim_front_blank l s b.1)

trim_back_blank : (r : Bytes) → All IsBlank r → trim_back r ≡ []
unfolding trim_back
trim_back_blank [] b = refl
trim_back_blank (c ∷ r) b = rw (trim_back_blank r b.1, b.0)

trim_back_keep :
    (c : ℕ) (s : Bytes) (d : ℕ) (w : Bytes) → trim_back s ≡ d ∷ w → trim_back (c ∷ s) ≡ c ∷ d ∷ w
unfolding trim_back
trim_back_keep c s d w e = rw e

trim_back_solid : (v r : Bytes) → EndsSolid v → All IsBlank r → trim_back (v ++ r) ≡ v
unfolding trim_back
trim_back_solid [] r h b = trim_back_blank r b
trim_back_solid (c ∷ []) r h b = rw (trim_back_blank r b, h)
trim_back_solid (c ∷ d ∷ v) r h b =
    trim_back_keep c (d ∷ (v ++ r)) d v (trim_back_solid (d ∷ v) r h b)

trim_front-All : (r : Bytes) → All IsBlank r → trim_front r ≡ []
unfolding trim_front
trim_front-All [] b = refl
trim_front-All (c ∷ r) b = rw (b.0) (trim_front-All r b.1)

-- Blanks put round a string that neither begins nor ends with one are what `trim_ows` takes away.
pub trim_ows_pad :
    (l v r : Bytes)
    → All IsBlank l
    → All IsBlank r
    → StartsSolid v
    → EndsSolid v
    → trim_ows (l ++ (v ++ r)) ≡ v
unfolding trim_ows
trim_ows_pad l [] r lb rb st en =
    rw (trim_front_blank l r lb, trim_front-All r rb) (unfold trim_back in refl)
trim_ows_pad l (c ∷ v) r lb rb st en =
    rw (trim_front_blank l ((c ∷ v) ++ r) lb, trim_front_solid (c ∷ v) r st (λ e. cc))
      (trim_back_solid (c ∷ v) r en rb)
