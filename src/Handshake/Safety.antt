-- ===== src/Handshake/Safety.antt =====
-- What the interleavings of the sender and the receivers of benchmark_shmem cannot do.
use mpidt_benchmark.Base.{
  ℕ, ◌+◌, ◌≤◌, ◌<◌, ◌≡◌, ◌⊎◌, inl, inr, refl, arith, eq→==, all_past, dec_lt,
}
use mpidt_benchmark.Memory.{Region}
use mpidt_benchmark.Joint.{iterations}
use mpidt_benchmark.Handshake.{
  Stage, at_head, at_middle, at_gather, Group, Move, store, announce, collect, hear, load, join,
  Moves, begin,
}
use mpidt_benchmark.Handshake.Invariant.{
  last, last-le-busy, at_head-weights, at_gather-weights, IsReady, sender_copies, receiver_copies,
  waiting,
}
use mpidt_benchmark.Handshake.Keep.{Holds, Moves-Inv}

stage_cases : (s : Stage) → (s ≡ at_head) ⊎ ((s ≡ at_middle) ⊎ (s ≡ at_gather))
stage_cases at_head = inl refl
stage_cases at_middle = inr (inl refl)
stage_cases at_gather = inr (inr refl)

at_gather_of_last : (s : Stage) → last s ≡ 1 → s ≡ at_gather
unfolding last
at_gather_of_last at_head e = absurd (omega (arith, e))
at_gather_of_last at_middle e = absurd (omega (arith, e))
at_gather_of_last at_gather e = refl

module _ (bufsize bs n base : ℕ) (bases : ℕ → ℕ) (lbuf : Region) (lbufs : ℕ → Region)
    (setup : IsReady bufsize bs n base bases lbuf lbufs) (file : ℕ → ℕ) (y : Group)
    (moves : Moves bufsize bs n base bases (begin file lbuf lbufs) y) where
  inv : Holds bufsize bs n base bases lbuf lbufs setup y
  inv = Moves-Inv bufsize bs n base bases lbuf lbufs setup file moves

  -- For a set-up as in IsReady and in every state reachable from the start: while a receiver is
  -- between its broadcast and its copy, the sender waits in the gather of the same iteration, so that
  -- it does not store, and the shared file holds all bytes of the sender's buffer.
  pub exclusive :
      (i : ℕ)
      → i < n
      → (y.receivers i).stage ≡ at_middle
      → (y.sender.stage ≡ at_gather)
        × ((y.receivers i).round ≡ y.sender.round)
        × ((o : ℕ) → o < bufsize → y.file o ≡ lbuf.cell (lbuf.base + o))
  exclusive i lt middle =
      let (same, gathering) = waiting bufsize bs n base bases lbuf lbufs setup y inv i lt middle in
      let le = last-le-busy y.sender.stage in
      (at_gather_of_last y.sender.stage gathering, same, inv.stored (omega arith))

  -- For a set-up as in IsReady and in every state reachable from the start: a receiver that has made
  -- at least one iteration holds all bytes of the sender's buffer in its own.
  pub shmem_delivered :
      (i o : ℕ)
      → i < n
      → 0 < (y.receivers i).round
      → o < bufsize
      → (y.receivers i).buf.cell ((lbufs i).base + o) ≡ lbuf.cell (lbuf.base + o)
  shmem_delivered i o lt some_round o_lt = (inv.receiver i lt).got (omega arith) o o_lt

  abbrev pub CanMove : Type 0
  CanMove = (z : Group) × Move bufsize bs n base bases y z

  receiver_moves :
      (i : ℕ)
      → i < n
      → (y.receivers i).round ≤ y.sender.round
      → y.sender.stage ≡ at_gather
      → CanMove
  receiver_moves i lt le gather =
      let r = inv.receiver i lt in
      let (b, l) = at_gather-weights gather in
      elim (stage_cases (y.receivers i).stage) [
        | inl head ↦
            let (b', l') = at_head-weights head in
            (
              _,
              hear y i lt (omega (arith, inv.rounds)) head
                  (omega (arith, r.left, inv.entered, r.not_passed)),
            )
        | inr (inl middle) ↦ (
          _,
          load y i _ _ lt middle
              (receiver_copies bufsize bs n base bases lbuf lbufs setup y i lt r.base r.size)
              (eq→== bufsize bufsize refl),
        )
        | inr (inr tail) ↦ (_, join y i lt tail)
      ]

  -- For a set-up as in IsReady and in every state reachable from the start: either the sender and all
  -- the receivers have made their 110 iterations, or some process can take a step, so that the
  -- broadcasts and gathers never deadlock.
  pub shmem_no_deadlock :
      ((y.sender.round ≡ iterations) × ((i : ℕ) → i < n → (y.receivers i).round ≡ iterations))
      ⊎ CanMove
  shmem_no_deadlock = elim (stage_cases y.sender.stage) [
    | inl head ↦ elim (dec_lt y.sender.round iterations) [
      | yes more ↦ inr (
        _,
        store y _ _ more head (sender_copies bufsize bs n base bases lbuf lbufs setup y inv.own)
            (eq→== bufsize bufsize refl),
      )
      | no ended ↦ inl (
        omega (arith, inv.rounds),
        λ i lt. let r = inv.receiver i lt in omega (arith, r.rounds, r.not_passed, inv.rounds),
      )
    ]
    | inr (inl middle) ↦ inr (_, announce y middle)
    | inr (inr gather) ↦ elim (all_past n y.sender.round (λ i. (y.receivers i).round)) [
      | inl joined ↦ inr (_, collect y gather joined)
      | inr (i, lt, le) ↦ inr (receiver_moves i lt le gather)
    ]
  ]
