-- ===== src/StaticFiles/Beneath.antt =====
-- What `sanitize` accepts, and that what it gives stays beneath the root.
use http.Base.{
  equal_refl, ℕ, zero, suc, ◌+◌, ◌*◌, ◌<◌, ◌≡◌, ◌≢◌, ◌↔◌, ◌⊎◌, inl, inr, refl, ◌∙◌, sym, subst, ap,
  true, false, not, ◌||◌, List, [], ◌∷◌, ◌++◌, Option, none, some, Bytes, codes, arith, ◌==◌,
  if◌then◌else◌, length, length-drop, take, drop, find, before, equal, All, Bool-cases,
  Option-cases,
}
use http.Ascii.{is_empty}
use http.Headers.Tokens.{split_on, split_on-none, split_on-some, find_bound, cons_head}
use http.StaticFiles.{push_decoded, decode, hex_digit, add_segment, segments_loop, sanitize}

-- The segments added in their order, unless one of them is the parent.
collect : Bytes → List Bytes → Option Bytes
collect out [] = some out
collect out (s ∷ ss) = elim (equal s (codes "..")) [
  | true ↦ none
  | false ↦ collect (add_segment out s) ss
]

segments_loop-collect :
    (fuel : ℕ) (out rest : Bytes)
    → length rest < fuel
    → segments_loop fuel out rest ≡ collect out (split_on b'/' rest)
unfolding segments_loop before collect
segments_loop-collect zero out rest h = absurd (omega arith)
segments_loop-collect (suc fuel) out rest h = elim (Option-cases (find b'/' rest)) [
  | inl e ↦
      rw (segments_loop, e, split_on-none b'/' rest e)
        (elim (Bool-cases (equal rest (codes ".."))) [
          | inl d ↦ rw (d, collect) refl
          | inr d ↦ rw (d, e, collect) (rw e refl)
        ])
  | inr (i, e) ↦
      let next : i + 1 ≡ suc i = omega arith in
      let out' = add_segment out (take i rest) in
      rw (segments_loop, e, split_on-some b'/' rest i e)
        (elim (Bool-cases (equal (take i rest) (codes ".."))) [
          | inl d ↦ rw (d, collect) refl
          | inr d ↦
              rw (d, e, collect)
                (rw e (
                  segments_loop-collect fuel out' (drop (i + 1) rest)
                    (omega (arith, length-drop (i + 1) rest, find_bound b'/' rest i e))
                  ∙ ap (λ k. collect out' (split_on b'/' (drop k rest))) next))
        ])
]

-- A byte that may stand in the decoded path, and one that may stand within a segment.
abbrev pub Allowed : ℕ → Type 0
Allowed c = (c ≢ 0) × (c ≢ 92)

abbrev pub Inner : ℕ → Type 0
Inner c = (c ≢ b'/') × Allowed c

-- A segment that names an entry of a directory and is neither the directory nor its parent.
abbrev pub Entry : Bytes → Type 0
Entry s = (s ≢ []) × (s ≢ codes ".") × (s ≢ codes "..") × All Inner s

-- A path of entries, one beneath the other.
pub data Beneath : Bytes → Type 0 where
  at_root : {s : Bytes} → Entry s → Beneath s
  under : {out s : Bytes} → Beneath out → Entry s → Beneath ((out ++ codes "/") ++ s)

push_decoded-some :
    (c : ℕ) (o : Option Bytes) (s : Bytes)
    → push_decoded c o ≡ some s
    → Allowed c × (t : Bytes) × (o ≡ some t) × (s ≡ c ∷ t)
unfolding push_decoded
push_decoded-some c none s e = absurd (ground arith)
push_decoded-some c (some t) s e = elim (Bool-cases (c == 0 || c == 92)) [
  | inl d ↦ absurd (ground arith)
  | inr d ↦ ((ground arith, ground arith), t, refl, ground arith)
]

push_decoded-Allowed :
    (c : ℕ) (o : Option Bytes) (s : Bytes)
    → ((t : Bytes) → o ≡ some t → All Allowed t)
    → push_decoded c o ≡ some s
    → All Allowed s
push_decoded-Allowed c o s h e =
    let (a, t, q, z) = push_decoded-some c o s e in subst (All Allowed) (sym z) (a, h t q)

decode-Allowed : (s d : Bytes) → decode s ≡ some d → All Allowed d
unfolding decode
decode-Allowed [] d e = let z : d ≡ [] = ground arith in rw z tt
decode-Allowed (c ∷ []) d e = elim (Bool-cases (c == b'%')) [
  | inl p ↦ absurd (ground arith)
  | inr p ↦ push_decoded-Allowed c (some []) d (λ t q. decode-Allowed [] t q) (rw p at e)
]
decode-Allowed (c ∷ h ∷ []) d e = elim (Bool-cases (c == b'%')) [
  | inl p ↦ absurd (ground arith)
  | inr p ↦ push_decoded-Allowed c (decode (h ∷ [])) d (decode-Allowed (h ∷ [])) (rw p at e)
]
decode-Allowed (c ∷ h ∷ l ∷ s) d e = elim (Bool-cases (c == b'%')) [
  | inr p ↦
      push_decoded-Allowed c (decode (h ∷ l ∷ s)) d (decode-Allowed (h ∷ l ∷ s))
        (rw (p, decode) at e)
  | inl p ↦ elim (Option-cases (hex_digit h)) [
    | inl n ↦ absurd (ground arith)
    | inr (hi, q) ↦ elim (Option-cases (hex_digit l)) [
      | inl n ↦ absurd (ground arith)
      | inr (lo, r) ↦
          push_decoded-Allowed (hi * 16 + lo) (decode s) d (decode-Allowed s)
            (rw (decode, p, q, r) at e)
    ]
  ]
]

cons_head-All :
    (c : ℕ) (ss : List Bytes) → Inner c → All (All Inner) ss → All (All Inner) (cons_head c ss)
cons_head-All c [] i h = ((i, tt), tt)
cons_head-All c (s ∷ ss) i h = ((i, h.0), h.1)

split_on-All : (s : Bytes) → All Allowed s → All (All Inner) (split_on b'/' s)
unfolding split_on
split_on-All [] h = (tt, tt)
split_on-All (c ∷ s) h = elim (Bool-cases (c == b'/')) [
  | inl e ↦ rw e (tt, split_on-All s h.1)
  | inr e ↦ rw e (cons_head-All c (split_on b'/' s) ((ground arith, h.0)) (split_on-All s h.1))
]

IsEmpty-cases : (s : Bytes) → (s ≡ []) ⊎ (is_empty s ≡ false)
IsEmpty-cases [] = inl refl
IsEmpty-cases (c ∷ s) = inr refl

differs : (s t : Bytes) → equal s t ≡ false → s ≢ t
differs s t h e = let r = equal_refl s in let k : equal s s ≡ false = rw (sym e) at h in cc

-- A path from the root: the root itself, or what is beneath it.
abbrev pub Rooted : Bytes → Type 0
Rooted out = (out ≡ []) ⊎ Beneath out

add_segment-Entry :
    (out s : Bytes)
    → Rooted out
    → Entry s
    → Rooted ((if not (is_empty out) then out ++ codes "/" else out) ++ s)
add_segment-Entry [] s r e = inr (at_root e)
add_segment-Entry (c ∷ out) s (inl z) e = absurd cc
add_segment-Entry (c ∷ out) s (inr b) e = inr (under b e)

add_segment-Rooted :
    (out s : Bytes)
    → Rooted out
    → All Inner s
    → equal s (codes "..") ≡ false
    → Rooted (add_segment out s)
unfolding add_segment
add_segment-Rooted out [] r h d = r
add_segment-Rooted out (c ∷ s) r h d = elim (Bool-cases (equal (c ∷ s) (codes "."))) [
  | inl e ↦ rw e r
  | inr e ↦ rw e (
      add_segment-Entry out (c ∷ s) r
        ((λ z. cc), differs (c ∷ s) (codes ".") e, differs (c ∷ s) (codes "..") d, h))
]

collect-Rooted :
    (out : Bytes) (ss : List Bytes) (r : Bytes)
    → Rooted out
    → All (All Inner) ss
    → collect out ss ≡ some r
    → Rooted r
unfolding collect
collect-Rooted out [] r o h e = subst Rooted (let z : out ≡ r = ground arith in z) o
collect-Rooted out (s ∷ ss) r o h e = elim (Bool-cases (equal s (codes ".."))) [
  | inl d ↦ absurd (ground arith)
  | inr d ↦
      collect-Rooted (add_segment out s) ss r (add_segment-Rooted out s o h.0 d) h.1
        (rw (collect, d) at e)
]

sanitize-collect :
    (url d : Bytes) → decode url ≡ some d → sanitize url ≡ collect [] (split_on b'/' d)
unfolding sanitize
sanitize-collect url d e =
    rw (sanitize, e) (segments_loop-collect (length d + 1) [] d (omega arith))

sanitize_decoded : (url out : Bytes) → sanitize url ≡ some out → (d : Bytes) × (decode url ≡ some d)
unfolding sanitize
sanitize_decoded url out h = elim (Option-cases (decode url)) [
  | inl e ↦ absurd (ground arith)
  | inr (d, e) ↦ (d, e)
]

-- What `sanitize` gives is the empty path, or entries one beneath the other: none is empty, `.` or
-- `..`, and none holds a slash, a backslash or a zero byte, however the URL was percent-encoded.
pub sanitize-Rooted : (url out : Bytes) → sanitize url ≡ some out → Rooted out
sanitize-Rooted url out h =
    let (d, e) = sanitize_decoded url out h in
    collect-Rooted [] (split_on b'/' d) out (inl refl) (split_on-All d (decode-Allowed url d e))
      (sym (sanitize-collect url d e) ∙ h)

-- A segment that is not the parent.
abbrev pub NotParent : Bytes → Type 0
NotParent s = equal s (codes "..") ≡ false

collect_iff :
    (out : Bytes) (ss : List Bytes) → ((r : Bytes) × (collect out ss ≡ some r)) ↔ All NotParent ss
unfolding collect
collect_iff out [] = (λ h. tt, λ k. (out, refl))
collect_iff out (s ∷ ss) =
    let (f, g) = collect_iff (add_segment out s) ss in
    elim (Bool-cases (equal s (codes ".."))) [
      | inl d ↦ (λ h. absurd (let e = h.1 in ground arith), λ k. absurd (let z = k.0 in cc))
      | inr d ↦ (
        λ h. (d, f (h.0, (rw (collect, d) at h.1))),
        λ k. let (r, e) = g k.1 in (r, rw (collect, d) e),
      )
    ]

-- `sanitize` accepts a URL exactly when it decodes, and no segment between the slashes of what it decodes to is `..`.
pub sanitize_iff :
    (url : Bytes)
    → ((out : Bytes) × (sanitize url ≡ some out))
      ↔ ((d : Bytes) × (decode url ≡ some d) × All NotParent (split_on b'/' d))
sanitize_iff url = (
  λ h.
      let (d, e) = sanitize_decoded url h.0 h.1 in
      (d, e, (collect_iff [] (split_on b'/' d)).0 (h.0, sym (sanitize-collect url d e) ∙ h.1)),
  λ k.
      let (r, e) = (collect_iff [] (split_on b'/' k.0)).1 k.2 in
      (r, sanitize-collect url k.0 k.1 ∙ e),
)
