-- ===== src/Tests/Routes.antt =====
-- The router, run at a concrete table.
use http.Base.{ℕ, List, [], ◌∷◌, ◌≡◌, refl, codes, false, true}
use http.Request.{Request, empty_request}
use http.Response.{Response, empty_response, text, plain_text}
use http.Router.{Route, returned, Handled, dispatch}
use http.Router.Answered.{Answers, dispatch-Answered}

abbrev hello : Request → Response ℕ → Handled ℕ
hello req res = returned (text 200 (codes "hi") plain_text)

abbrev table : List (Route ℕ)
table =
    record { method = codes "GET"; path = codes "/a"; prefix = true; handler = hello }
    ∷ record { method = codes "POST"; path = codes "/ab"; prefix = false; handler = hello }
    ∷ []

abbrev asked : Request
asked = record empty_request { method = codes "PUT"; path = codes "/ab" }

answered :
    (dispatch table asked empty_response).headers
    ≡ (codes "Content-Type", plain_text) ∷ (codes "Allow", codes "GET, HEAD, POST") ∷ []
unfolding dispatch http.Ascii.iequals
answered = refl

dispatch-Answered_example : Answers table asked empty_response (dispatch table asked empty_response)
dispatch-Answered_example = dispatch-Answered table asked empty_response
