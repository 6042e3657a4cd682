-- ===== src/CommandLine/Printing.antt =====
-- Settings that are written out as options are read back.
use http.Base.{
  if◌then◌else◌, ◌==◌, ℕ, ◌%◌, ◌^◌, ◌≤◌, ◌<◌, Bool, true, false, List, [], ◌∷◌, ◌≡◌, ◌≢◌, refl, ◌∙◌,
  ap, some, Bytes, codes, lt→ltb, le→ltb, All, arith,
}
use http.Parser.Numbers.{is_digit}
use http.Parser.Numbers.Radix.{IsDigit}
use http.Response.{to_decimal}
use http.Response.Decimals.{to_decimal-Decimal}
use http.App.{leading_digits}
use http.App.Numbers.{leading_digits-value}
use http.CommandLine.{
  is_space, skip_spaces, skip_sign, negate_if, checked_number, signed_number, parse_number, Options,
  on_option, on_port, options_loop, starts, takes_two,
}

not_space : (c : ℕ) → IsDigit c → is_space c ≡ false
unfolding is_space is_digit
not_space c h = ground (arith, h)

not_minus : (c : ℕ) → IsDigit c → (c == b'-') ≡ false
unfolding is_digit
not_minus c h = ground (arith, h)

not_plus : (c : ℕ) → IsDigit c → (c == b'+') ≡ false
unfolding is_digit
not_plus c h = ground (arith, h)

skip_spaces-digit : (c : ℕ) (s : Bytes) → IsDigit c → skip_spaces (c ∷ s) ≡ c ∷ s
unfolding skip_spaces
skip_spaces-digit c s h = rw (not_space c h) refl

skip_sign-digit : (c : ℕ) (s : Bytes) → IsDigit c → skip_sign (c ∷ s) ≡ (false, c ∷ s)
unfolding skip_sign
skip_sign-digit c s h = rw (not_minus c h, not_plus c h) refl

signed_number-digit :
    (c : ℕ) (s : Bytes)
    → IsDigit c
    → signed_number (false, c ∷ s) ≡ checked_number false (leading_digits (c ∷ s) 0)
unfolding signed_number
signed_number-digit c s h = rw (signed_number, h) refl

-- A string of digits has no spaces and no sign in front.
digits_bare :
    (s : Bytes)
    → All IsDigit s
    → s ≢ []
    → parse_number (some s) ≡ checked_number false (leading_digits s 0)
unfolding parse_number
digits_bare [] h n = absurd (n refl)
digits_bare (c ∷ s) h n =
    ap (λ t. signed_number (skip_sign t)) (skip_spaces-digit c s h.0)
    ∙ ap signed_number (skip_sign-digit c s h.0)
    ∙ signed_number-digit c s h.0

parse_number-to_decimal : (v : ℕ) → v < 2 ^ 64 → parse_number (some (to_decimal v)) ≡ some v
unfolding checked_number negate_if
parse_number-to_decimal v l =
    let w = to_decimal-Decimal v l in
    digits_bare (to_decimal v) w.digits w.some_digit
    ∙ rw (leading_digits-value (to_decimal v) 0 w.digits)
        (rw (w.value) (rw (lt→ltb v (2 ^ 64) l) refl))

-- The settings as options.
abbrev pub print_options : Options → List Bytes
print_options o =
    codes "--port"
    ∷ to_decimal o.port
    ∷ codes "--bind"
    ∷ o.bind_address
    ∷ codes "--threads"
    ∷ to_decimal o.threads
    ∷ codes "--root"
    ∷ o.static_root
    ∷ codes "--idle-timeout-ms"
    ∷ to_decimal o.idle_timeout
    ∷ codes "--header-timeout-ms"
    ∷ to_decimal o.header_timeout
    ∷ codes "--max-body"
    ∷ to_decimal o.max_body_bytes
    ∷ (if o.pin_threads then codes "--pin" ∷ [] else [])

-- The numbers fit in their types.
pub record FitsTypes (o : Options) : Type 0 where
  pub port_fits : o.port ≤ 65535
  pub threads_fit : o.threads < 2 ^ 32
  pub idle_fits : o.idle_timeout < 2 ^ 64
  pub header_fits : o.header_timeout < 2 ^ 64
  pub body_fits : o.max_body_bytes < 2 ^ 64

taken_two :
    (arg next : Bytes) (rest : List Bytes) (o o' : Options)
    → on_option arg (some next) o ≡ takes_two o'
    → options_loop (arg ∷ next ∷ rest) o ≡ options_loop rest o'
unfolding options_loop
taken_two arg next rest o o' e = rw (options_loop, e) refl

port_taken :
    (v : ℕ) (o : Options)
    → v ≤ 65535
    → on_option (codes "--port") (some (to_decimal v)) o ≡ takes_two (record o { port = v })
unfolding on_option on_port
port_taken v o l = rw (parse_number-to_decimal v (omega (arith, l)), le→ltb 65535 v l) refl

threads_taken :
    (v : ℕ) (o : Options)
    → v < 2 ^ 32
    → on_option (codes "--threads") (some (to_decimal v)) o ≡ takes_two (record o { threads = v })
unfolding on_option
threads_taken v o l =
    let same : v % 2 ^ 32 ≡ v = omega (arith, l) in
    rw (parse_number-to_decimal v (omega (arith, l)), same) refl

idle_taken :
    (v : ℕ) (o : Options)
    → v < 2 ^ 64
    → on_option (codes "--idle-timeout-ms") (some (to_decimal v)) o
      ≡ takes_two (record o { idle_timeout = v })
unfolding on_option
idle_taken v o l = rw (parse_number-to_decimal v l) refl

header_taken :
    (v : ℕ) (o : Options)
    → v < 2 ^ 64
    → on_option (codes "--header-timeout-ms") (some (to_decimal v)) o
      ≡ takes_two (record o { header_timeout = v })
unfolding on_option
header_taken v o l = rw (parse_number-to_decimal v l) refl

body_taken :
    (v : ℕ) (o : Options)
    → v < 2 ^ 64
    → on_option (codes "--max-body") (some (to_decimal v)) o
      ≡ takes_two (record o { max_body_bytes = v })
unfolding on_option
body_taken v o l = rw (parse_number-to_decimal v l) refl

pin_taken :
    (pin : Bool) (o : Options)
    → o.pin_threads ≡ false
    → options_loop (if pin then codes "--pin" ∷ [] else []) o
      ≡ starts (record o { pin_threads = pin })
unfolding options_loop on_option
pin_taken true o e = refl
pin_taken false o e = ap (λ b. starts (record o { pin_threads = b })) e

-- Settings whose numbers fit in their types, written out as options, are read back as they are,
-- from all other settings in which the threads are not yet pinned.
pub options_loop-print_options :
    (o from : Options)
    → FitsTypes o
    → from.pin_threads ≡ false
    → options_loop (print_options o) from ≡ starts o
unfolding on_option
options_loop-print_options o from f p =
    let o₁ = record from { port = o.port } in
    let o₂ = record o₁ { bind_address = o.bind_address } in
    let o₃ = record o₂ { threads = o.threads } in
    let o₄ = record o₃ { static_root = o.static_root } in
    let o₅ = record o₄ { idle_timeout = o.idle_timeout } in
    let o₆ = record o₅ { header_timeout = o.header_timeout } in
    let o₇ = record o₆ { max_body_bytes = o.max_body_bytes } in
    taken_two _ _ _ from o₁ (port_taken o.port from f.port_fits)
    ∙ taken_two (codes "--bind") o.bind_address _ o₁ o₂ refl
    ∙ taken_two _ _ _ o₂ o₃ (threads_taken o.threads o₂ f.threads_fit)
    ∙ taken_two (codes "--root") o.static_root _ o₃ o₄ refl
    ∙ taken_two _ _ _ o₄ o₅ (idle_taken o.idle_timeout o₄ f.idle_fits)
    ∙ taken_two _ _ _ o₅ o₆ (header_taken o.header_timeout o₅ f.header_fits)
    ∙ taken_two _ _ _ o₆ o₇ (body_taken o.max_body_bytes o₆ f.body_fits)
    ∙ pin_taken o.pin_threads o₇ p
