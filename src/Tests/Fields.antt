-- ===== src/Tests/Fields.antt =====
-- Header lists and the ASCII helpers, run at concrete inputs.
use http.Base.{true, [], ◌∷◌, none, some, ◌≡◌, refl, ◌↔◌, codes, if◌then◌else◌}
use http.Ascii.{iequals, trim_ows}
use http.Ascii.Fold.{SameLetters, iequals-SameLetters}
use http.Ascii.Trim.{Trimmed, trim_ows-Trimmed}
use http.Headers.{Headers, find_field, set, add, get, has, remove, has_token}
use http.Headers.Lookup.{Distinct, get-set, get-add, get-remove, mutations-Distinct}
use http.Headers.Tokens.{split_on, any, has_token-any}

abbrev fields : Headers
fields = (codes "Host", codes "x") ∷ (codes "Connection", codes "Upgrade, keep-alive") ∷ []

fields-Distinct : Distinct fields
unfolding find_field iequals
fields-Distinct = (refl, (refl, tt))

lookup_ignores_case : get fields (codes "HOST") ≡ some (codes "x")
unfolding get iequals
lookup_ignores_case = refl

has_second_token : has_token fields (codes "connection") (codes "Keep-Alive") ≡ true
unfolding has_token iequals
has_second_token = refl

trim_both_ends : trim_ows (codes " \t a b \t") ≡ codes "a b"
unfolding trim_ows
trim_both_ends = refl

get-set_example : get (set fields (codes "host") (codes "y")) (codes "HOST") ≡ (
    if iequals (codes "host") (codes "HOST") then some (codes "y") else get fields (codes "HOST"))
get-set_example = get-set fields (codes "host") (codes "y") (codes "HOST")

get-add_example : get (add fields (codes "host") (codes "y")) (codes "HOST") ≡ some (codes "x, y")
unfolding get iequals
get-add_example = get-add fields (codes "host") (codes "y") (codes "HOST")

get-remove_example :
    (get (remove fields (codes "host")).0 (codes "Host") ≡ none)
    × ((remove fields (codes "host")).1 ≡ has fields (codes "host"))
unfolding iequals
get-remove_example = get-remove fields (codes "host") (codes "Host") fields-Distinct

mutations-Distinct_example :
    Distinct (set fields (codes "a") (codes "1"))
    × Distinct (add fields (codes "a") (codes "1"))
    × Distinct (remove fields (codes "a")).0
mutations-Distinct_example = mutations-Distinct fields (codes "a") (codes "1") fields-Distinct

has_token-any_example :
    has_token fields (codes "connection") (codes "Keep-Alive")
    ≡ any
        (λ m. iequals (trim_ows m) (codes "Keep-Alive"))
        (split_on b',' (codes "Upgrade, keep-alive"))
unfolding get any iequals
has_token-any_example = has_token-any fields (codes "connection") (codes "Keep-Alive")

trim_ows-Trimmed_example : Trimmed (codes " \t a b \t") (trim_ows (codes " \t a b \t"))
trim_ows-Trimmed_example = trim_ows-Trimmed (codes " \t a b \t")

iequals-SameLetters_example :
    (iequals (codes "Host") (codes "hOST") ≡ true) ↔ SameLetters (codes "Host") (codes "hOST")
iequals-SameLetters_example = iequals-SameLetters (codes "Host") (codes "hOST")
