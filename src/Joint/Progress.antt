-- ===== src/Joint/Progress.antt =====
-- No interleaving of the sender and the receivers of benchmark_shmem_pip gets stuck, or goes on
-- forever.
pub mod Length
use mpidt_benchmark.Base.{
  all_past, ℕ, zero, suc, ◌+◌, ◌*◌, ◌≤◌, ◌<◌, ◌≡◌, ◌⊎◌, inl, inr, refl, sym, ap, ◌∙◌, arith, true,
  false, dec_lt,
}
use mpidt_benchmark.Memory.{Region, ok}
use mpidt_benchmark.Pipeline.Pass.{IsAt}
use mpidt_benchmark.Joint.{
  Side, System, at_loop, in_body, mapped, iterations, going, complete, Step, store, announce,
  collect, hear, load, join, Reach, start,
}
use mpidt_benchmark.Joint.Loop
use mpidt_benchmark.Joint.Pieces.{IsSetup, fill-piece, drain-piece}
use mpidt_benchmark.Joint.Moves.{IsInv, Reach-Inv, phase_cases}

module _ (full bufsize bs m n base : ℕ) (bases : ℕ → ℕ) (lbuf : Region) (lbufs : ℕ → Region)
    (setup : IsSetup full bufsize bs m n base bases lbuf lbufs) where
  open setup use {sender_fits, receiver_fits, depth, whole, even}

  abbrev CanStep : System → Type 0
  CanStep y = (z : System) × Step full bufsize bs n base bases y z

  abbrev pub IsFinished : System → Type 0
  IsFinished y =
      (y.sender.round ≡ iterations) × ((i : ℕ) → i < n → (y.receivers i).round ≡ iterations)

  abbrev IsInv' : System → Type 0
  IsInv' = IsInv full bufsize bs m n base bases lbuf lbufs setup

  -- A receiver in the iteration of a sender that waits for it.
  receiver_moves :
      (y : System) (inv : IsInv' y) (i : ℕ)
      → i < n
      → (y.receivers i).round ≡ y.sender.round
      → y.sender.round < iterations
      → inv.sent ≡ m
      → CanStep y
  receiver_moves y inv i i_lt e more all =
      let r = inv.receiver i i_lt in
      let bound = r.side.heard_le in
      let f = receiver_fits i i_lt in
      let file0 = mapped (bases i) bufsize (λ _. 0) in
      elim (phase_cases (y.receivers i).phase) [
        | inr body ↦
            let lag = r.in_body_lag body in
            let (p, run, _) =
              drain-piece full bufsize bs m n base bases lbuf lbufs setup y i (inv.done i) i_lt
                r.side.at (omega arith) r.base r.size in
            (_, load y i p _ i_lt body run)
        | inl head ↦
            let level = r.side.at_head head in
            elim (dec_lt (inv.done i) m) [
              | yes lt ↦
                  let turns : (y.receivers i).round * m ≡ y.sender.round * m =
                    ap (λ (t : ℕ). t * m) e in
                  let g =
                    Loop.going-lt (lbufs i) file0 full bufsize bs m f depth whole even (inv.done i)
                      (y.receivers i).at r.side.at lt in
                  (
                    _,
                    hear y i i_lt (omega arith) head g
                        (omega (arith, r.side.count, inv.side.count)),
                  )
              | no ge ↦
                  let end : inv.done i ≡ m = omega (arith, r.side.done_le) in
                  let at' : IsAt bs (m * full) (y.receivers i).at = rw (sym end) r.side.at in
                  (
                    _,
                    join y i i_lt (omega arith) head
                        (Loop.going-end (lbufs i) file0 full bufsize bs m f depth whole even
                          (y.receivers i).at at')
                        (Loop.complete-end (lbufs i) file0 full bufsize bs m f depth whole even
                          (y.receivers i).at at'),
                  )
            ]
      ]

  system_moves : (y : System) → IsInv' y → y.sender.round < iterations → CanStep y
  system_moves y inv more =
      let file0 = mapped base bufsize (λ _. 0) in
      elim (phase_cases y.sender.phase) [
        | inr body ↦ (_, announce y body)
        | inl head ↦
            let level = inv.side.at_head head in
            elim (dec_lt inv.stored m) [
              | yes lt ↦
                  let (p, run, _) =
                    fill-piece full bufsize bs m n base bases lbuf lbufs setup y inv.stored
                      inv.side.at lt inv.own in
                  let g =
                    Loop.going-lt lbuf file0 full bufsize bs m sender_fits depth whole even
                      inv.stored y.sender.at inv.side.at lt in
                  (_, store y p _ more head g run)
              | no ge ↦
                  let end : inv.stored ≡ m = omega (arith, inv.side.done_le) in
                  let at' : IsAt bs (m * full) y.sender.at = rw (sym end) inv.side.at in
                  elim (all_past n y.sender.round (λ i. (y.receivers i).round)) [
                    | inl joined ↦ (
                      _,
                      collect y more head
                          (Loop.going-end lbuf file0 full bufsize bs m sender_fits depth whole even
                            y.sender.at at')
                          (Loop.complete-end lbuf file0 full bufsize bs m sender_fits depth whole
                            even y.sender.at at')
                          joined,
                    )
                    | inr (i, i_lt, le) ↦ elim (inv.receiver i i_lt).follows [
                      | inl (e, heard) ↦ receiver_moves y inv i i_lt e more (omega arith)
                      | inr (e, z, all) ↦ absurd (omega arith)
                    ]
                  ]
            ]
      ]

  -- For a set-up as in IsSetup and in every state reachable from the start: either the sender and all
  -- the receivers have made their 110 iterations, or some process can take a step, so that the
  -- broadcasts and gathers never deadlock.
  pub no_deadlock :
      (file : ℕ → ℕ) (y : System)
      → Reach full bufsize bs n base bases (start file lbuf lbufs) y
      → IsFinished y ⊎ ((z : System) × Step full bufsize bs n base bases y z)
  no_deadlock file y reach =
      let inv = Reach-Inv full bufsize bs m n base bases lbuf lbufs setup file reach in
      elim (dec_lt y.sender.round iterations) [
        | yes more ↦ inr (system_moves y inv more)
        | no ended ↦ inl (
          omega (arith, inv.side.rounds),
          λ i lt.
              let r = inv.receiver i lt in
              elim r.follows [
                | inl (e, _) ↦ omega (arith, inv.side.rounds)
                | inr (e, _, _) ↦ absurd (omega (arith, r.side.rounds))
              ],
        )
      ]
