-- ===== src/Server/Steps.antt =====
-- What the parts of `drive` share: they keep a connection well formed, only add to its output, touch
-- nothing of the worker that belongs to others, and their progress uses up work that is left.
use http.Base.{
  ℕ, suc, ◌+◌, ◌*◌, ◌≤◌, ◌<◌, ◌≡◌, ◌∙◌, ap, sym, ◌⊎◌, inl, inr, true, not, ◌&&◌, List, [], ◌∷◌,
  ◌++◌, length, append_assoc, append-nil, arith,
}
use http.Parser.{RequestParser, started, failed}
use http.ByteBuffer.{size}
use http.ByteBuffer.Prepare.{IsValid}
use http.Server.{Item, RecvResult, received, recv_failed, Connection, Turn}
use http.Server.Reading.Absorbed.{AllFit}
use http.Server.Sharing.{SameWorker, SameWorker-refl, SameWorker-trans}
use http.Server.Writing.Items.{HasOutput, flow}
use http.Server.Writing.Measure.{flag, measure}

-- The answers of `recv`, and the bytes that they hold.
abbrev pub recv_work : List RecvResult → ℕ
recv_work [] = 0
recv_work (received s ∷ rs) = suc (length s + recv_work rs)
recv_work (recv_failed e ∷ rs) = suc (recv_work rs)

-- A request is being read, and has not failed.
abbrev pub ripe : RequestParser → ℕ
ripe p = flag (started p && not (failed p))

module _ {ℓ} {P : Type ℓ} where
  -- What is left to do on the input.
  abbrev pub chores : Connection P → ℕ
  chores c =
      5 * size c.input
      + (flag (not c.continue_sent) + (4 * ripe c.parser + flag (not c.close_after_write)))

  -- All that is left to do until the kernel has new answers. A byte of input weighs more than what one
  -- request can add.
  abbrev pub effort : Connection P → ℕ
  effort c = (chores c + measure c) + 5 * recv_work c.socket.recvs

  -- The input buffer and the output are well formed, and the kernel gives no more than it is asked for.
  pub record IsSound (c : Connection P) : Type 0 where
    pub valid : IsValid c.input
    pub fits : HasOutput c
    pub kernel : AllFit c.socket.recvs

  -- The second turn follows from the first.
  pub record Moves (t u : Turn P) : Type ℓ where
    pub sound : IsSound u.conn
    pub more : List Item
    pub carried : flow u.conn ≡ flow t.conn ++ more
    pub worker : SameWorker t.worker u.worker
    pub bounded : effort u.conn ≤ effort t.conn
    pub paid : u.progress ≡ true → (t.progress ≡ true) ⊎ (effort u.conn < effort t.conn)

  pub Moves-refl : (t : Turn P) → IsSound t.conn → Moves t t
  Moves-refl t s = record {
    sound = s;
    more = [];
    carried = sym (append-nil (flow t.conn));
    worker = SameWorker-refl t.worker;
    bounded = omega arith;
    paid = inl;
  }

  pub Moves-trans : {t u v : Turn P} → Moves t u → Moves u v → Moves t v
  Moves-trans {t = t} {u = u} {v = v} a b = record {
    sound = b.sound;
    more = a.more ++ b.more;
    carried =
        b.carried ∙ ap (λ f. f ++ b.more) a.carried ∙ append_assoc (flow t.conn) a.more b.more;
    worker = SameWorker-trans a.worker b.worker;
    bounded = omega (arith, a.bounded, b.bounded);
    paid = λ e. elim (b.paid e) [
      | inl p ↦ elim (a.paid p) [ inl q ↦ inl q | inr q ↦ inr (omega (arith, b.bounded)) ]
      | inr q ↦ inr (omega (arith, a.bounded))
    ];
  }
