-- ===== src/CommandLine.antt =====
-- The command line of src/main.cpp: `parse_number` and the loop over the options.
pub mod Printing
use http.Base.{
  ℕ, ◌+◌, ◌-◌, ◌*◌, ◌%◌, ◌^◌, Bool, true, false, not, ◌&&◌, ◌||◌, List, [], ◌∷◌, Option, none, some,
  Bytes, codes, ltb, ◌==◌, if◌then◌else◌, equal,
}
use http.Ascii.{is_empty, within}
use http.Parser.Numbers.{is_digit}
use http.App.{leading_digits}

-- `isspace`.
unfoldable pub is_space : ℕ → Bool
is_space c = c == 32 || within 9 13 c

unfoldable pub skip_spaces : Bytes → Bytes
unfolding is_space
skip_spaces [] = []
skip_spaces (c ∷ s) = let further = skip_spaces s in if is_space c then further else c ∷ s

-- The optional sign; the flag is that of a minus.
unfoldable pub skip_sign : Bytes → Bool × Bytes
skip_sign [] = (false, [])
skip_sign (c ∷ s) =
    if c == b'-' then (true, s) else if c == b'+' then (false, s) else (false, c ∷ s)

-- `-v` on an `unsigned long`.
unfoldable pub negate_if : Bool → ℕ → ℕ
negate_if minus v = if minus then (2 ^ 64 - v) % 2 ^ 64 else v

-- The tests on what `strtoul` has made of the digits, with those read at once.
unfoldable pub checked_number : Bool → ℕ × Bytes → Option ℕ
unfolding negate_if
checked_number minus (v, rest) =
    if not (ltb v (2 ^ 64))
    then none
    else if not (is_empty rest)
    then none
    else some (negate_if minus v)

-- `strtoul` in base 10 behind its sign: where no digit follows, `end` is `value`.
unfoldable pub signed_number : Bool × Bytes → Option ℕ
unfolding leading_digits checked_number
signed_number (minus, []) = none
signed_number (minus, c ∷ s) =
    if not (is_digit c) then none else checked_number minus (leading_digits (c ∷ s) 0)

-- `none` is `std::exit(2)`.
unfoldable pub parse_number : Option Bytes → Option ℕ
unfolding skip_spaces skip_sign signed_number
parse_number none = none
parse_number (some value) = signed_number (skip_sign (skip_spaces value))

-- The settings that the options change. The timeouts are 64-bit counts of milliseconds.
pub record Options : Type 0 where
  pub bind_address : Bytes
  pub port : ℕ
  pub threads : ℕ
  pub pin_threads : Bool
  pub idle_timeout : ℕ
  pub header_timeout : ℕ
  pub max_body_bytes : ℕ
  pub static_root : Bytes

abbrev pub default_options : Options
default_options = record {
  bind_address = codes "0.0.0.0";
  port = 8080;
  threads = 0;
  pin_threads = false;
  idle_timeout = 30000;
  header_timeout = 10000;
  max_body_bytes = 8 * 1024 * 1024;
  static_root = codes "public";
}

-- What a round of the loop does: it takes the option, or its value too, or the program ends.
pub data Taken : Type 0 where
  takes_one takes_two : Options → Taken
  ends_with : ℕ → Taken

-- An option with a number.
abbrev pub with_number : Option ℕ → (ℕ → Taken) → Taken
with_number none following = ends_with 2
with_number (some v) following = following v

-- An option with a string; without one it is incomplete.
abbrev pub with_string : Option Bytes → (Bytes → Taken) → Taken
with_string none following = ends_with 2
with_string (some s) following = following s

unfoldable pub on_port : ℕ → Options → Taken
on_port port o = if ltb 65535 port then ends_with 2 else takes_two (record o { port = port })

unfoldable pub on_option : Bytes → Option Bytes → Options → Taken
unfolding equal parse_number on_port
on_option arg next o =
    if equal arg (codes "-h") || equal arg (codes "--help")
    then ends_with 0
    else if equal arg (codes "--port")
    then with_number (parse_number next) (λ port. on_port port o)
    else if equal arg (codes "--bind")
    then with_string next (λ s. takes_two (record o { bind_address = s }))
    else if equal arg (codes "--threads")
    then with_number (parse_number next) (λ v. takes_two (record o { threads = v % 2 ^ 32 }))
    else if equal arg (codes "--pin")
    then takes_one (record o { pin_threads = true })
    else if equal arg (codes "--root")
    then with_string next (λ s. takes_two (record o { static_root = s }))
    else if equal arg (codes "--idle-timeout-ms")
    then with_number (parse_number next) (λ v. takes_two (record o { idle_timeout = v }))
    else if equal arg (codes "--header-timeout-ms")
    then with_number (parse_number next) (λ v. takes_two (record o { header_timeout = v }))
    else if equal arg (codes "--max-body")
    then with_number (parse_number next) (λ v. takes_two (record o { max_body_bytes = v }))
    else ends_with 2

-- What the loop leaves: the settings to run with, or the status that the program ends with.
pub data Started : Type 0 where
  starts : Options → Started
  exits : ℕ → Started

abbrev pub last_taken : Taken → Started
last_taken (takes_one o) = starts o
last_taken (takes_two o) = starts o
last_taken (ends_with status) = exits status

-- The loop, over the arguments behind the program's name.
unfoldable pub options_loop : List Bytes → Options → Started
unfolding on_option
options_loop [] o = starts o
options_loop (arg ∷ []) o = last_taken (on_option arg none o)
options_loop (arg ∷ next ∷ rest) o = elim (on_option arg (some next) o) [
  | takes_one o' ↦ options_loop (next ∷ rest) o'
  | takes_two o' ↦ options_loop rest o'
  | ends_with status ↦ exits status
]
