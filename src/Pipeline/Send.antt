-- ===== src/Pipeline/Send.antt =====
-- The sender's outer loop in benchmark_shmem_pip of src/bench.c.
use mpidt_benchmark.Base.{
  ℕ, zero, suc, ◌+◌, ◌*◌, ◌/◌, ◌^◌, ◌≤◌, ◌<◌, ◌≡◌, refl, ap, sym, ◌∙◌, arith, List, [], ◌∷◌, true,
  false, dec_lt, ltb, lt→ltb, le→not-ltb, repeat_append, repeat_append-cons,
}
use mpidt_benchmark.Word.{rounds, rounds-id}
use mpidt_benchmark.Memory.{Region, ok, err, segfault, blit}
use mpidt_benchmark.Memory.Blit.{blit-base, blit-size, blit-join, blit-none}
use mpidt_benchmark.Iovec.{Iovec}
use mpidt_benchmark.World.{Env, World, bcast, is_sender, mpi_bcast}
use mpidt_benchmark.World.Returns
use mpidt_benchmark.World.Returns.{Returns, returns, for-Returns}
use mpidt_benchmark.Shmem.{store_shared}
use mpidt_benchmark.Shmem.Copy.{Fits, covered-le, whole_iovec, store_shared-Copies}
use mpidt_benchmark.Pipeline.{Cursor, fill, send_loop}
use mpidt_benchmark.Pipeline.Pass.{IsAt, lt_of_mul_lt, pass-blit, pass-overrun}

-- The depth of the pipeline, which is the capacity of a pass.
pub record IsDepth (full : ℕ) : Type 0 where
  pub positive : 0 < full
  pub int_range : full < 2 ^ 31

pub at_end : (bs niov : ℕ) (p : Cursor) → IsAt bs (niov * bs) p → p.iovcnt ≡ niov
at_end bs niov p at = elim (dec_lt p.iovcnt niov) [
  | yes lt ↦
      let m : suc p.iovcnt * bs ≤ niov * bs = grind arith in
      absurd (omega (arith, at.counted, at.inside))
  | no ge ↦ elim (dec_lt niov p.iovcnt) [
    | yes gt ↦
        let m : suc niov * bs ≤ p.iovcnt * bs = grind arith in
        absurd (omega (arith, at.counted, at.inside))
    | no le ↦ omega arith
  ]
]

module _ (lbuf shmem : Region) (bufsize bs full : ℕ) (f : Fits lbuf shmem bufsize bs)
    (depth : IsDepth full) where
  abbrev pub niov : ℕ
  niov = bufsize / bs

  abbrev pub liov : List Iovec
  liov = whole_iovec lbuf.base bufsize bs

  pub few : niov ≤ bufsize
  few = let p = f.positive in grind arith

  pub bs_small : 0 < niov → bs < 2 ^ 31
  bs_small h =
      let le = covered-le bufsize bs in
      let m : 1 * bs ≤ niov * bs = grind arith in omega (arith, f.int_range)

  pub fill-blit :
      (pos : ℕ) (p : Cursor) (d : Region)
      → IsAt bs pos p
      → 0 < niov
      → pos + full ≤ niov * bs
      → d.base ≡ shmem.base
      → d.size ≡ shmem.size
      → (p' : Cursor) × (fill lbuf liov full p d
          ≡ ok (p', blit d (shmem.base + pos) lbuf (lbuf.base + pos) full))
        × IsAt bs (pos + full) p'
  unfolding fill
  fill-blit pos p d at nonempty le eb es =
      let c = covered-le bufsize bs in
      let small = bs_small nonempty in
      pass-blit (store_shared lbuf) lbuf lbuf.base lbuf.base shmem.base bs niov
        (store_shared-Copies lbuf shmem.base (niov * bs) (omega (arith, f.lbuf_room))
          (omega (arith, f.shmem_end)))
        (omega (arith, f.int_range)) small (omega (arith, f.lbuf_end)) (suc full) full pos p d
        (omega arith) at le eb (omega (arith, f.shmem_room))

  fill-overrun :
      (pos : ℕ) (p : Cursor) (d : Region)
      → IsAt bs pos p
      → 0 < niov
      → pos ≤ niov * bs
      → niov * bs < pos + full
      → d.base ≡ shmem.base
      → d.size ≡ shmem.size
      → fill lbuf liov full p d ≡ err segfault
  unfolding fill
  fill-overrun pos p d at nonempty le over eb es =
      let c = covered-le bufsize bs in
      pass-overrun (store_shared lbuf) lbuf lbuf.base lbuf.base shmem.base bs niov
        (store_shared-Copies lbuf shmem.base (niov * bs) (omega (arith, f.lbuf_room))
          (omega (arith, f.shmem_end)))
        (omega (arith, f.int_range)) (bs_small nonempty) (omega (arith, f.lbuf_end)) (suc full) full
        pos p d (omega arith) (omega (arith, depth.int_range)) at le over eb
        (omega (arith, f.shmem_room))

  pub going :
      (pos : ℕ) (p : Cursor) → IsAt bs pos p → pos < niov * bs → ltb p.iovcnt (rounds niov) ≡ true
  going pos p at h =
      rw (rounds-id niov (omega (arith, few, f.int_range)))
        (lt→ltb p.iovcnt niov (lt_of_mul_lt p.iovcnt niov bs (omega (arith, at.counted))))

  pub ended : (p : Cursor) → IsAt bs (niov * bs) p → ltb p.iovcnt (rounds niov) ≡ false
  ended p at =
      rw (rounds-id niov (omega (arith, few, f.int_range)))
        (le→not-ltb p.iovcnt niov (omega (arith, at_end bs niov p at)))

  pub nonempty_of_lt : (pos : ℕ) → pos < niov * bs → 0 < niov
  nonempty_of_lt pos h = lt_of_mul_lt 0 niov bs (omega arith)

module _ (env : Env) (lbuf shmem : Region) (bufsize bs full : ℕ) (f : Fits lbuf shmem bufsize bs)
    (depth : IsDepth full) where
  abbrev n_iov : ℕ
  n_iov = bufsize / bs

  abbrev iov : List Iovec
  iov = whole_iovec lbuf.base bufsize bs

  pub send_loop-Returns :
      (m fuel pos : ℕ) (p : Cursor) (w : World)
      → is_sender env ≡ true
      → m < fuel
      → pos + m * full ≡ n_iov * bs
      → IsAt bs pos p
      → w.lbuf ≡ lbuf
      → w.shmem.base ≡ shmem.base
      → w.shmem.size ≡ shmem.size
      → Returns
          (λ p' w'.
            IsAt bs (n_iov * bs) p'
            × (w'.lbuf ≡ lbuf)
            × (w'.shmem ≡ blit w.shmem (shmem.base + pos) lbuf (lbuf.base + pos) (m * full))
            × (w'.comm ≡ repeat_append m (bcast env.sender 1 ∷ []) w.comm))
          (send_loop env full iov fuel n_iov p w)
  unfolding send_loop mpi_bcast repeat_append
  send_loop-Returns m zero pos p w s enough e at el eb es = absurd (omega arith)
  send_loop-Returns zero (suc fuel) pos p w s enough e at el eb es =
      let at' : IsAt bs (n_iov * bs) p = omega arith in
      rw (ended lbuf shmem bufsize bs full f depth p at') (
        returns (
          at',
          el,
          sym (blit-none w.shmem (shmem.base + pos) lbuf (lbuf.base + pos) (omega arith)),
          refl,
        ))
  send_loop-Returns (suc m) (suc fuel) pos p w s enough e at el eb es =
      let d = depth.positive in
      let lt : pos < n_iov * bs = omega arith in
      let (p', q, at') =
        fill-blit lbuf shmem bufsize bs full f depth pos p w.shmem at
          (nonempty_of_lt lbuf shmem bufsize bs full f depth pos lt) (omega arith) eb es in
      let q' = ap (λ (r : Region). fill r iov full p w.shmem) el ∙ q in
      let next = record w {
        shmem = blit w.shmem (shmem.base + pos) lbuf (lbuf.base + pos) full;
        bcasts = suc w.bcasts;
        comm = bcast env.sender 1 ∷ w.comm;
      } in
      rw (going lbuf shmem bufsize bs full f depth pos p at lt, q', s)
        (Returns.mono
          (send_loop-Returns m fuel (pos + full) p' next s (omega arith) (omega arith) at' el
            (blit-base w.shmem _ lbuf _ full ∙ eb) (blit-size w.shmem _ lbuf _ full ∙ es))
          (λ p'' w' (at'', same, data', called). (
            at'',
            same,
            data'
                ∙ blit-join w.shmem (shmem.base + pos) lbuf (lbuf.base + pos) full (m * full)
                    (omega arith) (omega arith) (omega arith),
            called ∙ repeat_append-cons m (bcast env.sender 1) w.comm,
          )))

  -- With a piece left over, the pass that begins in it reads behind the iovec array.
  pub send_loop-overrun :
      (m fuel pos : ℕ) (p : Cursor) (w : World)
      → is_sender env ≡ true
      → m < fuel
      → pos + m * full < n_iov * bs
      → n_iov * bs < pos + m * full + full
      → IsAt bs pos p
      → w.lbuf ≡ lbuf
      → w.shmem.base ≡ shmem.base
      → w.shmem.size ≡ shmem.size
      → send_loop env full iov fuel n_iov p w ≡ err segfault
  unfolding send_loop mpi_bcast
  send_loop-overrun m zero pos p w s enough lo hi at el eb es = absurd (omega arith)
  send_loop-overrun zero (suc fuel) pos p w s enough lo hi at el eb es =
      let lt : pos < n_iov * bs = omega arith in
      let q =
        ap (λ (r : Region). fill r iov full p w.shmem) el
        ∙ fill-overrun lbuf shmem bufsize bs full f depth pos p w.shmem at
            (nonempty_of_lt lbuf shmem bufsize bs full f depth pos lt) (omega arith) (omega arith)
            eb es in
      rw (going lbuf shmem bufsize bs full f depth pos p at lt, q)
  send_loop-overrun (suc m) (suc fuel) pos p w s enough lo hi at el eb es =
      let lt : pos < n_iov * bs = omega arith in
      let (p', q, at') =
        fill-blit lbuf shmem bufsize bs full f depth pos p w.shmem at
          (nonempty_of_lt lbuf shmem bufsize bs full f depth pos lt) (omega arith) eb es in
      let q' = ap (λ (r : Region). fill r iov full p w.shmem) el ∙ q in
      let next = record w {
        shmem = blit w.shmem (shmem.base + pos) lbuf (lbuf.base + pos) full;
        bcasts = suc w.bcasts;
        comm = bcast env.sender 1 ∷ w.comm;
      } in
      rw (going lbuf shmem bufsize bs full f depth pos p at lt, q', s)
        (send_loop-overrun m fuel (pos + full) p' next s (omega arith) (omega arith) (omega arith)
          at' el (blit-base w.shmem _ lbuf _ full ∙ eb) (blit-size w.shmem _ lbuf _ full ∙ es))
