-- ===== src/Server/Writing/Items.antt =====
-- The output of a connection as a list of the bytes that go over the wire.
use http.Base.{
  ℕ, zero, suc, ◌+◌, ◌-◌, ◌≤◌, ◌≡◌, refl, ◌∙◌, ap, sym, List, [], ◌∷◌, ◌++◌, Option, none, some,
  Bytes, length, length-append, append_assoc, append-nil, arith, take, drop, drop-drop,
  take-append-drop,
}
use http.Server.{Item, byte, file_byte, Connection}
use http.Server.Writing.{as_items, file_items}

-- The offset lies within `out`, and `out` is empty once all of it has been sent.
pub record OutputFits (out : Bytes) (off : ℕ) : Type 0 where
  pub within : off ≤ length out
  pub drained : off ≡ length out → out ≡ []

abbrev pub HasOutput {ℓ} : {P : Type ℓ} → Connection P → Type 0
HasOutput c = OutputFits c.out c.out_off

-- What is left of a file.
abbrev pub file_rest : Option ℕ → ℕ → ℕ → List Item
file_rest none off left = []
file_rest (some fd) off left = file_items fd off left

-- What has been sent, and what is still to be sent of what is known.
abbrev pub flow {ℓ} : {P : Type ℓ} → Connection P → List Item
flow c =
    c.socket.wire ++ (as_items (drop c.out_off c.out) ++ file_rest c.file c.file_off c.file_left)

-- The flow of the second is that of the first, and perhaps more; with no body producer there is no
-- more, and none comes up.
abbrev pub Carries {ℓ} : {P : Type ℓ} → Connection P → Connection P → Type ℓ
Carries c d =
    HasOutput d
    × (more : List Item) × (flow d ≡ flow c ++ more)
    × (c.producer ≡ none → (d.producer ≡ none) × (more ≡ []))

pub Carries-same {ℓ} :
    {P : Type ℓ} (c d : Connection P)
    → HasOutput d
    → flow d ≡ flow c
    → d.producer ≡ c.producer
    → Carries c d
Carries-same c d v e p = (v, [], e ∙ sym (append-nil (flow c)), λ n. (p ∙ n, refl))

pub Carries-trans {ℓ} :
    {P : Type ℓ} (c d e : Connection P) → Carries c d → Carries d e → Carries c e
Carries-trans c d e x y = (
  y.0,
  x.1 ++ y.1,
  y.2 ∙ ap (λ f. f ++ y.1) x.2 ∙ append_assoc (flow c) x.1 y.1,
  λ n. let (p, k) = x.3 n in let (q, l) = y.3 p in (q, ap (λ f. f ++ y.1) k ∙ l),
)

pub as_items-append : (s t : Bytes) → as_items (s ++ t) ≡ as_items s ++ as_items t
as_items-append [] t = refl
as_items-append (c ∷ s) t = ap (◌∷◌ (byte c)) (as_items-append s t)

pub file_items_split :
    (fd off k n : ℕ) → file_items fd off (k + n) ≡ file_items fd off k ++ file_items fd (off + k) n
file_items_split fd off zero n =
    let a : 0 + n ≡ n = omega arith in let b : off + 0 ≡ off = omega arith in rw (a, b) refl
file_items_split fd off (suc k) n =
    let a : suc k + n ≡ suc (k + n) = omega arith in
    let b : off + 1 + k ≡ off + suc k = omega arith in
    rw a (ap (◌∷◌ (file_byte fd off)) (file_items_split fd (off + 1) k n ∙ rw b refl))

pub length_zero : (s : Bytes) → 0 ≡ length s → s ≡ []
length_zero [] h = refl
length_zero (c ∷ s) h = absurd (omega arith)

-- Bytes that go from `out` to the wire stay in the flow.
pub flow_sent :
    (wire : List Item) (out : Bytes) (off sent : ℕ) (rest : List Item)
    → (wire ++ as_items (take sent (drop off out))) ++ (as_items (drop (off + sent) out) ++ rest)
      ≡ wire ++ (as_items (drop off out) ++ rest)
flow_sent wire out off sent rest =
    let split : as_items (take sent (drop off out)) ++ as_items (drop (off + sent) out)
        ≡ as_items (drop off out) =
      ap (λ s. as_items (take sent (drop off out)) ++ as_items s) (sym (drop-drop off sent out))
      ∙ sym (as_items-append (take sent (drop off out)) (drop sent (drop off out)))
      ∙ ap as_items (take-append-drop sent (drop off out)) in
    append_assoc wire (as_items (take sent (drop off out)))
      (as_items (drop (off + sent) out) ++ rest)
    ∙ ap (◌++◌ wire) (
        sym (
          append_assoc (as_items (take sent (drop off out))) (as_items (drop (off + sent) out))
            rest)
        ∙ ap (λ x. x ++ rest) split)

-- Bytes that go from a file to the wire stay in the flow, when nothing else is pending.
pub flow_sent_file :
    (wire : List Item) (pending : Bytes) (fd off sent left : ℕ)
    → pending ≡ []
    → sent ≤ left
    → (wire ++ file_items fd off sent)
        ++ (as_items pending ++ file_items fd (off + sent) (left - sent))
      ≡ wire ++ (as_items pending ++ file_items fd off left)
flow_sent_file wire pending fd off sent left e h =
    let count : left ≡ sent + (left - sent) = omega arith in
    let whole = ap (file_items fd off) count ∙ file_items_split fd off sent (left - sent) in
    rw e (
      append_assoc wire (file_items fd off sent) (file_items fd (off + sent) (left - sent))
      ∙ ap (◌++◌ wire) (sym whole))

pub file_rest_zero : (file : Option ℕ) (off left : ℕ) → left ≡ 0 → file_rest file off left ≡ []
file_rest_zero none off left h = refl
file_rest_zero (some fd) off left h = rw h refl

pub file_rest_none : (file : Option ℕ) (off left : ℕ) → file ≡ none → file_rest file off left ≡ []
file_rest_none none off left h = refl
file_rest_none (some fd) off left h = absurd (cc)

-- Output that is appended comes last in the flow, when no file waits behind it.
pub flow_appended :
    (wire : List Item) (pending more : Bytes) (r s : List Item)
    → r ≡ []
    → s ≡ []
    → wire ++ (as_items (pending ++ more) ++ r) ≡ (wire ++ (as_items pending ++ s)) ++ as_items more
flow_appended wire pending more r s e f =
    rw (e, f) (simp (as_items-append, append_assoc, append-nil))

-- Output stays valid when it is appended to.
pub OutputFits-append :
    (out more : Bytes) (off : ℕ) → OutputFits out off → OutputFits (out ++ more) off
OutputFits-append out more off v = record {
  within = omega (arith, v.within, length-append out more);
  drained = λ e.
      let l = length-append out more in
      let old = v.drained (omega (arith, v.within)) in
      let z : length out ≡ 0 = ap length old in length_zero (out ++ more) (omega (arith, v.within));
}
