-- ===== src/Parser/Passing.antt =====
-- What is known of a parser when a check or a line was accepted.
use http.Base.{Bool, true, false, ◌≡◌, refl, Option, some, none}
use Prim.Native.String.{String}
use http.Request.{ParseError}
use http.Parser.{RequestParser, refuse_if, refuse_none}

-- `P` holds of the parser if the flag says that it may go on.
abbrev pub OnPass {ℓ} : (RequestParser → Type ℓ) → RequestParser × Bool → Type ℓ
OnPass P (q, true) = P q
OnPass P (q, false) = Unit

module _ {ℓ} (P : RequestParser → Type ℓ) (p : RequestParser) where
  pub refuse_if-OnPass :
      (test : Bool) (e : ParseError) (d : String) (r : RequestParser × Bool)
      → (test ≡ false → OnPass P r)
      → OnPass P (refuse_if p test e d r)
  unfolding refuse_if
  refuse_if-OnPass true e d r h = tt
  refuse_if-OnPass false e d r h = h refl

  pub refuse_none-OnPass {κ} :
      {A : Type κ} (o : Option A) (e : ParseError) (d : String) (f : A → RequestParser × Bool)
      → ((a : A) → o ≡ some a → OnPass P (f a))
      → OnPass P (refuse_none p o e d f)
  unfolding refuse_none
  refuse_none-OnPass none e d f h = tt
  refuse_none-OnPass (some a) e d f h = h a refl
