-- ===== src/Kill/Delivered.antt =====
-- Which processes a signal reaches.
use keow.Prelude.{ℕ, ◌≡◌, true, ◌∷◌, Option, some, ◌>>=◌, set}
use keow.Signals.{Effect}
use keow.Signals.Delivery.{send_signal_other}
use keow.Signals.Totality.{IsSized}
use keow.Kill.{Entry}

-- The entry with the signal's bit set among those that wait, and the process told to look at it.
abbrev pub posted : ℕ → Entry → Entry
posted sig e = record e {
  signals = record e.signals {
    pending = set e.signals.pending sig true;
    effects = Effect.single_step ∷ e.signals.effects;
  };
}

abbrev posting : ℕ → Entry → Option Entry
posting sig e = send_signal_other sig e.signals >>= λ s. some (record e { signals = s })

-- A process that signals reach without a fault: its arrays have their sizes, and no one traces it.
pub record IsReachable (e : Entry) : Type 0 where
  pub sized : IsSized e.signals
  pub untraced : e.signals.ptrace_owner ≡ 0
