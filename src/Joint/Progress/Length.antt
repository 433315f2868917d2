-- ===== src/Joint/Progress/Length.antt =====
-- The number of steps of a run.
use mpidt_benchmark.Base.{ℕ, suc, ◌+◌, ◌*◌, ◌≤◌, ◌≡◌, arith, mul_mono}
use mpidt_benchmark.Memory.{Region}
use mpidt_benchmark.Pipeline.{cursor}
use mpidt_benchmark.Joint.{
  Phase, Side, System, at_loop, in_body, iterations, Step, store, announce, collect, hear, load,
  join, Reach, here, next, start,
}
use mpidt_benchmark.Joint.Totals.{total, total-update, total-le}
use mpidt_benchmark.Joint.Pieces.{IsSetup}
use mpidt_benchmark.Joint.Moves.{IsInv, Reach-Inv}

module _ (full bufsize bs n base : ℕ) (bases : ℕ → ℕ) where
  pub steps : {x y : System} → Reach full bufsize bs n base bases x y → ℕ
  steps here = 0
  steps (next r s) = suc (steps r)

-- The steps that a sender, and a receiver (and one more in front of its body), have behind them.
sent_weight : Phase → ℕ
sent_weight at_loop = 0
sent_weight in_body = 1

heard_weight : Phase → ℕ
heard_weight at_loop = 1
heard_weight in_body = 0

sender_weight : Side → ℕ
sender_weight p = 2 * p.bcasts + p.round + sent_weight p.phase

receiver_weight : Side → ℕ
receiver_weight p = 2 * p.bcasts + p.round + heard_weight p.phase

weight : ℕ → System → ℕ
weight n y = sender_weight y.sender + total receiver_weight n y.receivers

module _ (full bufsize bs n base : ℕ) (bases : ℕ → ℕ) where
  Step-weight :
      {y z : System} → Step full bufsize bs n base bases y z → weight n z ≡ suc (weight n y)
  unfolding weight sender_weight receiver_weight sent_weight heard_weight
  Step-weight (store y p d more phase g run) = rw phase (omega arith)
  Step-weight (announce y phase) = rw phase (omega arith)
  Step-weight (collect y more phase g whole_run joined) = omega arith
  Step-weight (hear y i i_lt more phase g waiting) =
      let s = record (y.receivers i) { phase = in_body; bcasts = suc (y.receivers i).bcasts } in
      omega (arith, total-update receiver_weight n y.receivers i s i_lt (rw phase (omega arith)))
  Step-weight (load y i p d i_lt phase run) =
      let s = record (y.receivers i) { at = p; phase = at_loop; buf = d } in
      omega (arith, total-update receiver_weight n y.receivers i s i_lt (rw phase (omega arith)))
  Step-weight (join y i i_lt more phase g whole_run) =
      let s = record (y.receivers i) { round = suc (y.receivers i).round; at = cursor 0 0 0 0 } in
      omega (arith, total-update receiver_weight n y.receivers i s i_lt (omega arith))

  steps-weight :
      {x y : System} (r : Reach full bufsize bs n base bases x y)
      → weight n y ≡ weight n x + steps full bufsize bs n base bases r
  unfolding steps
  steps-weight here = omega arith
  steps-weight (next r s) = omega (arith, Step-weight s, steps-weight r)

-- The steps that one process can make, at most.
abbrev pub side_bound : ℕ → ℕ
side_bound m = 2 * (suc iterations * m) + iterations + 1

bcasts_le :
    (m round heard : ℕ) → round ≤ iterations → heard ≤ m → round * m + heard ≤ suc iterations * m
bcasts_le m round heard le small = let turns = mul_mono round iterations m le in omega arith

sent_weight-le : (p : Phase) → sent_weight p ≤ 1
unfolding sent_weight
sent_weight-le at_loop = omega arith
sent_weight-le in_body = omega arith

heard_weight-le : (p : Phase) → heard_weight p ≤ 1
unfolding heard_weight
heard_weight-le at_loop = omega arith
heard_weight-le in_body = omega arith

module _ (full bufsize bs m n base : ℕ) (bases : ℕ → ℕ) (lbuf : Region) (lbufs : ℕ → Region)
    (setup : IsSetup full bufsize bs m n base bases lbuf lbufs) where
  weight-le :
      (y : System)
      → IsInv full bufsize bs m n base bases lbuf lbufs setup y
      → weight n y ≤ suc n * side_bound m
  unfolding weight sender_weight receiver_weight
  weight-le y inv =
      let sender : sender_weight y.sender ≤ side_bound m = omega (
        arith,
        inv.side.count,
        inv.side.rounds,
        bcasts_le m y.sender.round inv.sent inv.side.rounds inv.side.heard_le,
        sent_weight-le y.sender.phase,
      ) in
      let receivers : total receiver_weight n y.receivers ≤ n * side_bound m =
        total-le receiver_weight n (side_bound m) y.receivers λ i lt.
          let r = inv.receiver i lt in
          omega (
            arith,
            r.side.count,
            r.side.rounds,
            bcasts_le m (y.receivers i).round (inv.heard i) r.side.rounds r.side.heard_le,
            heard_weight-le (y.receivers i).phase,
          ) in
      omega arith

  -- For a set-up as in IsSetup: a run of the sender and the receivers from the start has a bounded
  -- number of steps, in whatever order they take them, so that no run goes on forever.
  pub bounded :
      (file : ℕ → ℕ) (y : System) (r : Reach full bufsize bs n base bases (start file lbuf lbufs) y)
      → steps full bufsize bs n base bases r ≤ suc n * side_bound m
  bounded file y r = omega (
    arith,
    steps-weight full bufsize bs n base bases r,
    weight-le y (Reach-Inv full bufsize bs m n base bases lbuf lbufs setup file r),
  )
