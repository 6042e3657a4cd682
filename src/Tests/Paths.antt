-- ===== src/Tests/Paths.antt =====
-- The paths of static files, at concrete inputs.
use http.Base.{none, some, ◌≡◌, refl, ◌↔◌, Bytes, codes, All}
use http.Headers.Tokens.{split_on}
use http.StaticFiles.{decode, sanitize}
use http.StaticFiles.Beneath.{Rooted, NotParent, sanitize-Rooted, sanitize_iff}

abbrev url : Bytes
url = codes "/a/./b%20c//d.txt"

sanitized : sanitize url ≡ some (codes "a/b c/d.txt")
unfolding sanitize
sanitized = refl

parent_refused : sanitize (codes "/a/%2e%2E/b") ≡ none
unfolding sanitize
parent_refused = refl

sanitize-Rooted_example : Rooted (codes "a/b c/d.txt")
sanitize-Rooted_example = sanitize-Rooted url (codes "a/b c/d.txt") sanitized

sanitize_iff_example :
    ((out : Bytes) × (sanitize url ≡ some out))
    ↔ ((d : Bytes) × (decode url ≡ some d) × All NotParent (split_on b'/' d))
sanitize_iff_example = sanitize_iff url
