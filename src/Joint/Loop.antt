-- ===== src/Joint/Loop.antt =====
-- The loop conditions and the assertions of a process whose cursor stands behind `k` of `m` pieces.
use mpidt_benchmark.Base.{
  ℕ, suc, ◌+◌, ◌*◌, ◌/◌, ◌%◌, ◌≤◌, ◌<◌, ◌≡◌, refl, arith, true, false, dec_lt, eq→==,
}
use mpidt_benchmark.Word.{narrow, narrow-id}
use mpidt_benchmark.Memory.{Region}
use mpidt_benchmark.Shmem.Copy.{Fits}
use mpidt_benchmark.Pipeline.{Cursor, cursor}
use mpidt_benchmark.Pipeline.Pass.{IsAt}
use mpidt_benchmark.Pipeline.Send
use mpidt_benchmark.Pipeline.Send.{IsDepth}
use mpidt_benchmark.Joint.{going, complete}

module _ (lbuf shmem : Region) (full bufsize bs m : ℕ) (f : Fits lbuf shmem bufsize bs)
    (depth : IsDepth full) (whole : bufsize % bs ≡ 0) (even : m * full ≡ bufsize) where
  pub blocks : bufsize / bs * bs ≡ bufsize
  blocks = let h = whole in grind arith

  narrow_blocks : narrow (bufsize / bs) ≡ bufsize / bs
  narrow_blocks =
      narrow-id (bufsize / bs)
        (omega (arith, f.int_range, Send.few lbuf shmem bufsize bs full f depth))

  pub piece_le : (k : ℕ) → k < m → k * full + full ≤ bufsize
  piece_le k h = let l : suc k * full ≤ m * full = grind arith in omega (arith, even)

  pub going-lt :
      (k : ℕ) (p : Cursor) → IsAt bs (k * full) p → k < m → going full bufsize bs p ≡ true
  unfolding going
  going-lt k p at h =
      let d = depth.positive in
      let l = piece_le k h in
      rw narrow_blocks
        (Send.going lbuf shmem bufsize bs full f depth (k * full) p at (omega (arith, blocks)))

  at_blocks : (p : Cursor) → IsAt bs (m * full) p → IsAt bs (bufsize / bs * bs) p
  at_blocks p at = let b = blocks in omega (arith, even)

  pub going-end : (p : Cursor) → IsAt bs (m * full) p → going full bufsize bs p ≡ false
  unfolding going
  going-end p at =
      rw narrow_blocks (Send.ended lbuf shmem bufsize bs full f depth p (at_blocks p at))

  pub complete-end : (p : Cursor) → IsAt bs (m * full) p → complete full bufsize bs p ≡ true
  unfolding complete
  complete-end p at =
      rw
        (
          narrow_blocks,
          eq→== p.iovcnt (bufsize / bs) (Send.at_end bs (bufsize / bs) p (at_blocks p at)),
          eq→== p.nread bufsize (omega (arith, at.read, even)),
        )
        refl

  pub lt_of_going :
      (k : ℕ) (p : Cursor) → IsAt bs (k * full) p → k ≤ m → going full bufsize bs p ≡ true → k < m
  lt_of_going k p at le g = elim (dec_lt k m) [
    | yes h ↦ h
    | no ge ↦
        let e : k ≡ m = omega arith in
        let at' : IsAt bs (m * full) p = rw (← e) at in absurd (cc (g, going-end p at'))
  ]

  pub eq_of_ended :
      (k : ℕ) (p : Cursor) → IsAt bs (k * full) p → k ≤ m → going full bufsize bs p ≡ false → k ≡ m
  eq_of_ended k p at le g = elim (dec_lt k m) [
    | yes h ↦ absurd (cc (g, going-lt k p at h))
    | no ge ↦ omega arith
  ]

  pub IsAt-start : IsAt bs (0 * full) (cursor 0 0 0 0)
  IsAt-start = let h = f.positive in omega arith
