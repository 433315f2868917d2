-- ===== src/Broadcast.antt =====
-- What the two shared-file protocols of src/bench.c promise: rounds of a broadcast from one sender to
-- `n` receivers, of which no receiver misses one, and no round starts before all have the last one.
use mpidt_benchmark.Base.{ℕ, suc, ◌<◌, ◌≡◌}
use mpidt_benchmark.Joint.{update, iterations}

-- The rounds that the sender has started, and those whose data each receiver holds.
pub record Channel : Type 0 where
  pub started : ℕ
  pub held : ℕ → ℕ

pub data Turn (n : ℕ) : Channel → Channel → Type 0 where
  publish :
      (c : Channel)
      → c.started < iterations
      → ((i : ℕ) → i < n → c.held i ≡ c.started)
      → Turn n c (record c { started = suc c.started })
  take :
      (c : Channel) (i : ℕ)
      → i < n
      → c.held i < c.started
      → Turn n c (record c { held = update c.held i (suc (c.held i)) })

pub data Turns (n : ℕ) (c : Channel) : Channel → Type 0 where
  no_turn : Turns n c c
  one_turn : {d e : Channel} → Turns n c d → Turn n d e → Turns n c e

abbrev pub idle : Channel
idle = record { started = 0; held = λ _. 0 }
