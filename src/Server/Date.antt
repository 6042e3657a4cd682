-- ===== src/Server/Date.antt =====
-- The date of the responses: the class `DateCache` of src/server/server.cpp.
use http.Base.{
  ℕ, Bool, false, none, some, ◌≡◌, refl, Bytes, ◌==◌, inl, inr, arith, Option-cases, if_each, ap,
  ◌∙◌, if◌then◌else◌,
}
use http.Server.{DateCache}

abbrev pub is_cached : DateCache → ℕ → Bool
is_cached d now = elim d.cached [ none ↦ false | some t ↦ t == now ]

-- `DateCache::get`: the text and the cache. `format_date` is `gmtime_r` with `strftime`.
unfoldable pub get_date : (ℕ → Bytes) → DateCache → ℕ → Bytes × DateCache
get_date format_date d now =
    if is_cached d now
    then (d.shown, d)
    else (format_date now, record { cached = some now; shown = format_date now })

-- What is cached is the text of its time.
abbrev pub IsFresh : (ℕ → Bytes) → DateCache → Type 0
IsFresh format_date d = (t : ℕ) → d.cached ≡ some t → d.shown ≡ format_date t

-- The cache is not seen: the text is that of the time asked for, whatever has been asked before.
pub get_date-format_date :
    (format_date : ℕ → Bytes) (d : DateCache) (now : ℕ)
    → IsFresh format_date d
    → ((get_date format_date d now).0 ≡ format_date now)
      × IsFresh format_date (get_date format_date d now).1
unfolding get_date
get_date-format_date format_date d now h =
    if_each (λ (r : Bytes × DateCache). (r.0 ≡ format_date now) × IsFresh format_date r.1)
      (is_cached d now)
      (λ e. elim (Option-cases d.cached) [
        | inl n ↦ absurd (ground (arith, n))
        | inr (t, q) ↦ (h t q ∙ ap format_date (ground (arith, q)), h)
      ])
      (λ e. (refl, λ t q. ap format_date (ground arith)))
