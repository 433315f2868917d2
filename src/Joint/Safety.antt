-- ===== src/Joint/Safety.antt =====
-- What the interleavings of the sender and the receivers of benchmark_shmem_pip cannot do.
use mpidt_benchmark.Base.{
  ℕ, suc, ◌+◌, ◌*◌, ◌≤◌, ◌<◌, ◌≡◌, ◌⊎◌, inl, inr, sym, arith, true, false, mul_mono, Bool-cases,
}
use mpidt_benchmark.Memory.{Region, ok}
use mpidt_benchmark.Pipeline.{Cursor, fill, drain}
use mpidt_benchmark.Joint.{System, at_loop, in_body, mapped, going, complete, array, Reach, start}
use mpidt_benchmark.Joint.Loop
use mpidt_benchmark.Joint.Pieces.{IsSetup, fill-piece, drain-piece}
use mpidt_benchmark.Joint.Moves.{IsInv, Reach-Inv, shown, sender_lt, sender_end, phase_cases}

module _ (full bufsize bs m n base : ℕ) (bases : ℕ → ℕ) (lbuf : Region) (lbufs : ℕ → Region)
    (setup : IsSetup full bufsize bs m n base bases lbuf lbufs) (file : ℕ → ℕ) (y : System)
    (reach : Reach full bufsize bs n base bases (start file lbuf lbufs) y) where
  open setup use {sender_fits, receiver_fits, depth, whole, even}

  inv : IsInv full bufsize bs m n base bases lbuf lbufs setup y
  inv = Reach-Inv full bufsize bs m n base bases lbuf lbufs setup file reach

  -- For a set-up as in IsSetup and in every state reachable from the start: a receiver that has left
  -- a broadcast and not yet copied is going to read a piece of the file that ends at or before the
  -- place where the sender stores next, so that they do not access the same bytes at once.
  pub no_race :
      (i : ℕ)
      → i < n
      → (y.receivers i).phase ≡ in_body
      → (y.receivers i).at.shm_off + full ≤ y.sender.at.shm_off
  no_race i i_lt phase =
      let r = inv.receiver i i_lt in
      let (e, heard, le, seen) =
        shown full bufsize bs m n base bases lbuf lbufs setup y inv i i_lt phase in
      let d : suc (inv.done i) * full ≤ inv.stored * full =
        mul_mono (suc (inv.done i)) inv.stored full (omega arith) in
      omega (arith, r.side.at.shared, inv.side.at.shared)

  -- For a set-up as in IsSetup and in every state reachable from the start: a receiver that has left
  -- a broadcast and not yet copied finds in the file the bytes of the sender's buffer, up to the end
  -- of the piece that it is going to read.
  pub published :
      (i o : ℕ)
      → i < n
      → (y.receivers i).phase ≡ in_body
      → o < (y.receivers i).at.shm_off + full
      → y.file o ≡ lbuf.cell (lbuf.base + o)
  published i o i_lt phase lt =
      let r = inv.receiver i i_lt in
      let (e, heard, le, seen) =
        shown full bufsize bs m n base bases lbuf lbufs setup y inv i i_lt phase in
      seen o (omega (arith, r.side.at.shared))

  -- For a set-up as in IsSetup and in every state reachable from the start: a receiver that has made
  -- at least one iteration holds all bytes of the sender's buffer in its own.
  pub delivered :
      (i o : ℕ)
      → i < n
      → 0 < (y.receivers i).round
      → o < bufsize
      → (y.receivers i).buf.cell ((lbufs i).base + o) ≡ lbuf.cell (lbuf.base + o)
  delivered i o i_lt some_round lt = (inv.receiver i i_lt).filled.kept o some_round lt

  -- For a set-up as in IsSetup and in every state reachable from the start: a sender at the head of
  -- its outer loop either goes on, and its next inner loop succeeds, or has ended the loop, and the
  -- two assertions behind it hold.
  pub sender_safe :
      y.sender.phase ≡ at_loop
      → (going full bufsize bs y.sender.at ≡ true
          × ((p : Cursor) × (d : Region) × (fill y.sender.buf
                  (array full bufsize bs y.sender)
                  full
                  y.sender.at
                  (mapped base bufsize y.file)
                ≡ ok (p, d))))
        ⊎ ((going full bufsize bs y.sender.at ≡ false)
            × (complete full bufsize bs y.sender.at ≡ true))
  sender_safe phase = elim (Bool-cases (going full bufsize bs y.sender.at)) [
    | inl g ↦
        let (p, run, _) =
          fill-piece full bufsize bs m n base bases lbuf lbufs setup y inv.stored inv.side.at
            (sender_lt full bufsize bs m n base bases lbuf lbufs setup y inv g) inv.own in
        inl (g, (p, _, run))
    | inr g ↦
        let end = sender_end full bufsize bs m n base bases lbuf lbufs setup y inv g in
        inr (
          g,
          Loop.complete-end lbuf (mapped base bufsize (λ _. 0)) full bufsize bs m sender_fits depth
              whole even y.sender.at (rw (sym end) inv.side.at),
        )
  ]

  -- For a set-up as in IsSetup and in every state reachable from the start: a receiver that has left
  -- a broadcast copies its piece without error, and one at the head of its outer loop either goes on
  -- or passes the two assertions behind the loop.
  pub receiver_safe :
      (i : ℕ)
      → i < n
      → ((y.receivers i).phase ≡ in_body
          × ((p : Cursor) × (d : Region) × (drain
                  (mapped (bases i) bufsize y.file)
                  (array full bufsize bs (y.receivers i))
                  full
                  (y.receivers i).at
                  (y.receivers i).buf
                ≡ ok (p, d))))
        ⊎ (((y.receivers i).phase ≡ at_loop)
            × ((going full bufsize bs (y.receivers i).at ≡ true)
                ⊎ (complete full bufsize bs (y.receivers i).at ≡ true)))
  receiver_safe i i_lt =
      let r = inv.receiver i i_lt in
      elim (phase_cases (y.receivers i).phase) [
        | inr body ↦
            let lag = r.in_body_lag body in
            let bound = r.side.heard_le in
            let (p, run, _) =
              drain-piece full bufsize bs m n base bases lbuf lbufs setup y i (inv.done i) i_lt
                r.side.at (omega arith) r.base r.size in
            inl (body, (p, _, run))
        | inl head ↦ inr (
          head,
          elim (Bool-cases (going full bufsize bs (y.receivers i).at)) [
            | inl g ↦ inl g
            | inr g ↦
                let f = receiver_fits i i_lt in
                let file0 = mapped (bases i) bufsize (λ _. 0) in
                let end =
                  Loop.eq_of_ended (lbufs i) file0 full bufsize bs m f depth whole even (inv.done i)
                    (y.receivers i).at r.side.at r.side.done_le g in
                inr (
                  Loop.complete-end (lbufs i) file0 full bufsize bs m f depth whole even
                    (y.receivers i).at (rw (sym end) r.side.at))
          ],
        )
      ]

  -- For a set-up as in IsSetup and in every state reachable from the start: a sender is in front of a
  -- broadcast, or it is at the head of its outer loop and goes on, and its next inner loop succeeds,
  -- or it has ended the loop, and the two assertions behind it hold; a receiver that has left a broadcast copies its piece without
  -- error, and one at the head of its outer loop either goes on or passes the two assertions.
  pub loops_safe :
      ((y.sender.phase ≡ in_body)
        ⊎ ((y.sender.phase ≡ at_loop)
            × ((going full bufsize bs y.sender.at ≡ true
                  × ((p : Cursor) × (d : Region) × (fill y.sender.buf
                          (array full bufsize bs y.sender)
                          full
                          y.sender.at
                          (mapped base bufsize y.file)
                        ≡ ok (p, d))))
                ⊎ ((going full bufsize bs y.sender.at ≡ false)
                    × (complete full bufsize bs y.sender.at ≡ true)))))
      × ((i : ℕ)
          → i < n
          → ((y.receivers i).phase ≡ in_body
              × ((p : Cursor) × (d : Region) × (drain
                      (mapped (bases i) bufsize y.file)
                      (array full bufsize bs (y.receivers i))
                      full
                      (y.receivers i).at
                      (y.receivers i).buf
                    ≡ ok (p, d))))
            ⊎ (((y.receivers i).phase ≡ at_loop)
                × ((going full bufsize bs (y.receivers i).at ≡ true)
                    ⊎ (complete full bufsize bs (y.receivers i).at ≡ true))))
  loops_safe = (
    elim (phase_cases y.sender.phase) [
      | inl head ↦ inr (head, sender_safe head)
      | inr body ↦ inl body
    ],
    receiver_safe,
  )
