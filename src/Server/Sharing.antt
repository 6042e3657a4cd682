-- ===== src/Server/Sharing.antt =====
-- What work on one connection leaves alone of its worker.
use http.Base.{◌≡◌, refl, ◌∙◌}
use http.Server.{Worker}

module _ {ℓ} {P : Type ℓ} where
  -- What a connection's work leaves alone of its worker.
  pub record SameWorker (w v : Worker P) : Type ℓ where
    pub conns : v.conns ≡ w.conns
    pub accepted : v.metrics.connections_accepted ≡ w.metrics.connections_accepted
    pub closed : v.metrics.connections_closed ≡ w.metrics.connections_closed
    pub draining : v.draining ≡ w.draining
    pub listening : v.listening ≡ w.listening

  pub SameWorker-refl : (w : Worker P) → SameWorker w w
  SameWorker-refl w = record {
    conns = refl;
    accepted = refl;
    closed = refl;
    draining = refl;
    listening = refl;
  }

  pub SameWorker-trans : {w v x : Worker P} → SameWorker w v → SameWorker v x → SameWorker w x
  SameWorker-trans a b = record {
    conns = b.conns ∙ a.conns;
    accepted = b.accepted ∙ a.accepted;
    closed = b.closed ∙ a.closed;
    draining = b.draining ∙ a.draining;
    listening = b.listening ∙ a.listening;
  }
