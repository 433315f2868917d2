-- ===== src/Pipeline/Pass.antt =====
-- The inner loop of benchmark_shmem_pip in src/bench.c, which moves one piece.
use mpidt_benchmark.Base.{
  ℕ, zero, suc, ◌+◌, ◌-◌, ◌*◌, ◌^◌, ◌≤◌, ◌<◌, ◌≡◌, ap, sym, ◌∙◌, arith, true, false, Bool-cases,
  inl, inr, dec_lt, leb, ◌==◌,
}
use mathlib.Core.Path.{ap₂}
use mpidt_benchmark.Word.{ptr_add, sub64, narrow-id, ptr_add-id, add64-id, sub64-id}
use mpidt_benchmark.Memory.{Region, Result, ok, err, segfault, blit}
use mpidt_benchmark.Memory.Blit.{blit-none, blit-base, blit-size, blit-join}
use mpidt_benchmark.Iovec.{init_iovec}
use mpidt_benchmark.Iovec.Tiling.{at-init_iovec, at-init_iovec_above}
use mpidt_benchmark.Shmem.{Copy}
use mpidt_benchmark.Shmem.Copy.{Copies}
use mpidt_benchmark.Pipeline.{Cursor, next_block, inside_block, pass}

pub lt_of_mul_lt : (a b c : ℕ) → a * c < b * c → a < b
lt_of_mul_lt a b c h = elim (dec_lt a b) [
  | yes p ↦ p
  | no n ↦
      let le : b ≤ a = omega arith in let m : b * c ≤ a * c = grind arith in absurd (omega arith)
]

-- The cursor stands `pos` bytes behind the start, in blocks of `bs` bytes.
pub record IsAt (bs pos : ℕ) (p : Cursor) : Type 0 where
  pub counted : p.iovcnt * bs + p.iov_off ≡ pos
  pub inside : p.iov_off < bs
  pub shared : p.shm_off ≡ pos
  pub read : p.nread ≡ pos

module _ (copy : Copy) (src : Region) (from lbuf to bs niov : ℕ)
    (copies : Copies copy src from lbuf to (niov * bs)) (int_range : niov * bs < 2 ^ 31)
    (small : bs < 2 ^ 31) (fits : lbuf + niov * bs < 2 ^ 64) where
  abbrev Passed : ℕ → ℕ → Region → Result (Cursor × Region) → Type 0
  Passed pos cap d r =
      (p' : Cursor) × (r ≡ ok (p', blit d (to + pos) src (from + pos) cap)) × IsAt bs (pos + cap) p'

  moved :
      (n pos : ℕ) (p : Cursor) (d : Region)
      → IsAt bs pos p
      → pos + n ≤ niov * bs
      → d.base ≡ to
      → niov * bs ≤ d.size
      → copy p.shm_off (ptr_add (lbuf + p.iovcnt * bs) p.iov_off) n d
        ≡ ok (blit d (to + pos) src (from + pos) n)
  moved n pos p d at le eb room =
      let addr : ptr_add (lbuf + p.iovcnt * bs) p.iov_off ≡ lbuf + pos =
        ptr_add-id (lbuf + p.iovcnt * bs) p.iov_off (omega (arith, at.counted))
        ∙ omega (arith, at.counted) in
      ap₂ (λ (s a : ℕ). copy s a n d) at.shared addr ∙ copies d pos n eb room le

  next_block-IsAt :
      (pos : ℕ) (p : Cursor)
      → IsAt bs pos p
      → pos + (bs - p.iov_off) ≤ niov * bs
      → IsAt bs (pos + (bs - p.iov_off)) (next_block p (bs - p.iov_off))
  unfolding next_block
  next_block-IsAt pos p at le =
      let n = narrow-id (p.shm_off + (bs - p.iov_off)) (omega arith) in
      let s = add64-id p.nread (bs - p.iov_off) (omega arith) in
      record {
        counted = omega (arith, at.counted);
        inside = omega arith;
        shared = omega arith;
        read = omega arith;
      }

  inside_block-IsAt :
      (pos n : ℕ) (p : Cursor)
      → IsAt bs pos p
      → pos + n ≤ niov * bs
      → n < bs - p.iov_off
      → IsAt bs (pos + n) (inside_block p n)
  unfolding inside_block
  inside_block-IsAt pos n p at le lt =
      let o = narrow-id (p.iov_off + n) (omega arith) in
      let m = narrow-id (p.shm_off + n) (omega arith) in
      let s = add64-id p.nread n (omega arith) in
      record {
        counted = omega (arith, at.counted);
        inside = omega arith;
        shared = omega arith;
        read = omega arith;
      }

  Passed-join :
      (pos n cap cap' : ℕ) (d : Region) (r : Result (Cursor × Region))
      → n + cap' ≡ cap
      → Passed (pos + n) cap' (blit d (to + pos) src (from + pos) n) r
      → Passed pos cap d r
  Passed-join pos n cap cap' d r e (p', q, at) = (
    p',
    q
        ∙ ap (λ (t : Region). ok (p', t))
            (blit-join d (to + pos) src (from + pos) n cap' (omega arith) (omega arith) (sym e)),
    omega arith,
  )

  enough : (pos cap : ℕ) (p : Cursor) → IsAt bs pos p → pos < niov * bs → p.iovcnt < niov
  enough pos cap p at le = lt_of_mul_lt p.iovcnt niov bs (omega (arith, at.counted))

  pub pass-blit :
      (fuel cap pos : ℕ) (p : Cursor) (d : Region)
      → cap < fuel
      → IsAt bs pos p
      → pos + cap ≤ niov * bs
      → d.base ≡ to
      → niov * bs ≤ d.size
      → Passed pos cap d (pass fuel copy (init_iovec lbuf bs niov 0) cap p d)
  unfolding pass
  pass-blit zero cap pos p d f at le eb room = absurd (omega arith)
  pass-blit (suc fuel) cap pos p d f at le eb room = elim (Bool-cases (cap == 0)) [
    | inl done ↦
        let z : cap ≡ 0 = ground arith in
        (
          p,
          rw done
              (ap (λ (r : Region). ok (p, r)) (sym (blit-none d (to + pos) src (from + pos) z))),
          omega arith,
        )
    | inr more ↦
        let some_left : 0 < cap = ground arith in
        let entry = at-init_iovec lbuf bs niov p.iovcnt (enough pos cap p at (omega arith)) fits in
        let left : sub64 bs p.iov_off ≡ bs - p.iov_off =
          sub64-id bs p.iov_off (omega (arith, at.inside)) (omega arith) in
        let n = bs - p.iov_off in
        let d' = λ (m : ℕ). blit d (to + pos) src (from + pos) m in
        let base = λ (m : ℕ). blit-base d (to + pos) src (from + pos) m ∙ eb in
        let size = λ (m : ℕ). blit-size d (to + pos) src (from + pos) m in
        elim (Bool-cases (leb n cap)) [
          | inl rest ↦
              let le' : n ≤ cap = ground arith in
              let cap' = sub64-id cap n le' (omega arith) in
              rw (more, entry, left, rest, moved n pos p d at (omega arith) eb room)
                (Passed-join pos n cap (sub64 cap n) d _ (omega arith) (
                  pass-blit fuel (sub64 cap n) (pos + n) (next_block p n) (d' n)
                    (omega (arith, at.inside)) (next_block-IsAt pos p at (omega arith))
                    (omega arith) (base n) (omega (arith, size n))))
          | inr part ↦
              let lt : cap < n = ground arith in
              let cap' = sub64-id cap cap (omega arith) (omega arith) in
              rw (more, entry, left, part, moved cap pos p d at le eb room)
                (Passed-join pos cap cap (sub64 cap cap) d _ (omega arith) (
                  pass-blit fuel (sub64 cap cap) (pos + cap) (inside_block p cap) (d' cap)
                    (omega arith) (inside_block-IsAt pos cap p at le lt) (omega arith) (base cap)
                    (omega (arith, size cap))))
        ]
  ]

  -- With fewer bytes left than the pass is to move, it goes on behind the last block.
  pub pass-overrun :
      (fuel cap pos : ℕ) (p : Cursor) (d : Region)
      → cap < fuel
      → cap < 2 ^ 32
      → IsAt bs pos p
      → pos ≤ niov * bs
      → niov * bs < pos + cap
      → d.base ≡ to
      → niov * bs ≤ d.size
      → pass fuel copy (init_iovec lbuf bs niov 0) cap p d ≡ err segfault
  unfolding pass
  pass-overrun zero cap pos p d f word at le over eb room = absurd (omega arith)
  pass-overrun (suc fuel) cap pos p d f word at le over eb room =
      let more : (cap == 0) ≡ false = ground arith in
      elim (dec_lt p.iovcnt niov) [
        | no behind ↦ rw (more, at-init_iovec_above lbuf bs niov p.iovcnt (omega arith))
        | yes lt ↦
            let n = bs - p.iov_off in
            let bound : suc p.iovcnt * bs ≤ niov * bs = grind arith in
            let left : sub64 bs p.iov_off ≡ n =
              sub64-id bs p.iov_off (omega (arith, at.inside)) (omega arith) in
            let fit : pos + n ≤ niov * bs = omega (arith, at.counted, at.inside) in
            let rest : leb n cap ≡ true = ground arith in
            let cap' = sub64-id cap n (omega arith) (omega arith) in
            let d' = blit d (to + pos) src (from + pos) n in
            rw
              (
                more,
                at-init_iovec lbuf bs niov p.iovcnt lt fits,
                left,
                rest,
                moved n pos p d at fit eb room,
              )
              (pass-overrun fuel (sub64 cap n) (pos + n) (next_block p n) d'
                (omega (arith, at.inside)) (omega arith) (next_block-IsAt pos p at fit) fit
                (omega arith) (blit-base d (to + pos) src (from + pos) n ∙ eb)
                (omega (arith, blit-size d (to + pos) src (from + pos) n)))
      ]
