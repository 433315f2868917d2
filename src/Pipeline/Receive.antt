-- ===== src/Pipeline/Receive.antt =====
-- A receiver's outer loop in benchmark_shmem_pip of src/bench.c.
use mpidt_benchmark.Base.{
  ℕ, zero, suc, ◌+◌, ◌-◌, ◌*◌, ◌/◌, ◌≤◌, ◌<◌, ◌≡◌, refl, ap, ◌∙◌, arith, List, [], ◌∷◌, false,
  dec_lt, repeat_append, repeat_append-cons,
}
use mathlib.Core.Path.{ap₂}
use mpidt_benchmark.Memory.{Region, ok, blit}
use mpidt_benchmark.Memory.Blit.{blit-base, blit-size, blit-inside, blit-below}
use mpidt_benchmark.Iovec.{Iovec}
use mpidt_benchmark.World.{Env, World, bcast, is_sender, mpi_bcast}
use mpidt_benchmark.World.Returns
use mpidt_benchmark.World.Returns.{Returns, returns}
use mpidt_benchmark.Shmem.{load_shared}
use mpidt_benchmark.Shmem.Copy.{Fits, covered-le, whole_iovec, load_shared-Copies}
use mpidt_benchmark.Pipeline.{Cursor, drain, recv_loop}
use mpidt_benchmark.Pipeline.Pass.{IsAt, pass-blit}
use mpidt_benchmark.Pipeline.Send.{IsDepth, niov, liov, going, ended, nonempty_of_lt, bs_small}

-- From the `b`-th broadcast on, `m` broadcasts in a row each come after one more piece of `full`
-- bytes of `content` has been stored behind the first `pos` bytes: what the receiver sees then holds
-- all the pieces so far. This is what MPI_Bcast and a shared mapping promise a receiver about the
-- stores of the sender.
abbrev pub Visible : Env → (ℕ → ℕ) → ℕ → ℕ → ℕ → ℕ → ℕ → Type 0
Visible env content base full b pos m =
    (k o : ℕ) → k < m → o < pos + suc k * full → env.shared (b + k) (base + o) ≡ content o

module _ (lbuf shmem : Region) (bufsize bs full : ℕ) (f : Fits lbuf shmem bufsize bs)
    (depth : IsDepth full) where
  pub drain-blit :
      (pos : ℕ) (p : Cursor) (src d : Region)
      → IsAt bs pos p
      → 0 < bufsize / bs
      → pos + full ≤ bufsize / bs * bs
      → src.base ≡ shmem.base
      → src.size ≡ shmem.size
      → d.base ≡ lbuf.base
      → d.size ≡ lbuf.size
      → (p' : Cursor) × (drain src (whole_iovec lbuf.base bufsize bs) full p d
          ≡ ok (p', blit d (lbuf.base + pos) src (src.base + pos) full))
        × IsAt bs (pos + full) p'
  unfolding drain
  drain-blit pos p src d at nonempty le sb ss eb es =
      let c = covered-le bufsize bs in
      let small = bs_small lbuf shmem bufsize bs full f depth nonempty in
      pass-blit (load_shared src) src src.base lbuf.base lbuf.base bs (bufsize / bs)
        (load_shared-Copies src lbuf.base (bufsize / bs * bs) (omega (arith, f.shmem_room))
          (omega (arith, f.shmem_end)))
        (omega (arith, f.int_range)) small (omega (arith, f.lbuf_end)) (suc full) full pos p d
        (omega arith) at le eb (omega (arith, f.lbuf_room))

module _ (env : Env) (lbuf shmem : Region) (bufsize bs full : ℕ) (f : Fits lbuf shmem bufsize bs)
    (depth : IsDepth full) (content : ℕ → ℕ) where
  abbrev pub n_iov : ℕ
  n_iov = niov lbuf shmem bufsize bs full f depth

  abbrev pub iov : List Iovec
  iov = liov lbuf shmem bufsize bs full f depth

  -- The local buffer from `pos` on is the content; below it has not changed.
  abbrev pub Received : ℕ → (ℕ → ℕ) → (ℕ → ℕ) → Type 0
  Received pos before after =
      ((o : ℕ) → pos ≤ o → o < n_iov * bs → after (lbuf.base + o) ≡ content o)
      × ((o : ℕ) → o < pos → after (lbuf.base + o) ≡ before (lbuf.base + o))

  pub record HasBuffers (w : World) : Type 0 where
    pub lbase : w.lbuf.base ≡ lbuf.base
    pub lsize : w.lbuf.size ≡ lbuf.size
    pub sbase : w.shmem.base ≡ shmem.base
    pub ssize : w.shmem.size ≡ shmem.size

  -- One piece, and what the later ones bring.
  Received-piece :
      (b pos : ℕ) (w : World) (after : ℕ → ℕ)
      → HasBuffers w
      → ((o : ℕ) → o < pos + full → env.shared b (shmem.base + o) ≡ content o)
      → w.bcasts ≡ b
      → let seen = record w.shmem { cell = env.shared w.bcasts } in
        Received (pos + full) (blit w.lbuf (lbuf.base + pos) seen (seen.base + pos) full).cell after
        → Received pos w.lbuf.cell after
  Received-piece b pos w after h see eb (high, low) =
      let seen = record w.shmem { cell = env.shared w.bcasts } in
      let piece = λ (o : ℕ) (lo : pos ≤ o) (hi : o < pos + full).
        let here : lbuf.base + o ≡ lbuf.base + pos + (o - pos) = omega arith in
        let there : w.shmem.base + pos + (o - pos) ≡ shmem.base + o = omega (arith, h.sbase) in
        low o hi
        ∙ ap (blit w.lbuf (lbuf.base + pos) seen (seen.base + pos) full).cell here
        ∙ blit-inside w.lbuf (lbuf.base + pos) seen (seen.base + pos) full (o - pos) (omega arith)
        ∙ ap₂ (λ (n a : ℕ). env.shared n a) eb there
        ∙ see o hi in
      (
        λ o lo hi. elim (dec_lt o (pos + full)) [
          | yes lt ↦ piece o lo lt
          | no ge ↦ high o (omega arith) hi
        ],
        λ o lt.
            low o (omega arith)
            ∙ blit-below w.lbuf (lbuf.base + pos) seen (seen.base + pos) full (lbuf.base + o)
                (omega arith),
      )

  pub recv_loop-Returns :
      (m fuel b pos : ℕ) (p : Cursor) (w : World)
      → is_sender env ≡ false
      → Visible env content shmem.base full b pos m
      → m < fuel
      → pos + m * full ≡ n_iov * bs
      → IsAt bs pos p
      → w.bcasts ≡ b
      → HasBuffers w
      → Returns
          (λ p' w'.
            IsAt bs (n_iov * bs) p'
            × HasBuffers w'
            × (w'.bcasts ≡ b + m)
            × (w'.comm ≡ repeat_append m (bcast env.sender 1 ∷ []) w.comm)
            × Received pos w.lbuf.cell w'.lbuf.cell)
          (recv_loop env full iov fuel n_iov p w)
  unfolding recv_loop mpi_bcast repeat_append
  recv_loop-Returns m zero b pos p w r see enough e at eb h = absurd (omega arith)
  recv_loop-Returns zero (suc fuel) b pos p w r see enough e at eb h =
      let at' : IsAt bs (n_iov * bs) p = omega arith in
      rw (ended lbuf shmem bufsize bs full f depth p at')
        (returns (at', h, omega arith, refl, (λ o lo hi. absurd (omega arith), λ o lo. refl)))
  recv_loop-Returns (suc m) (suc fuel) b pos p w r see enough e at eb h =
      let d = depth.positive in
      let lt : pos < n_iov * bs = omega arith in
      let seen = record w.shmem { cell = env.shared w.bcasts } in
      let (p', q, at') =
        drain-blit lbuf shmem bufsize bs full f depth pos p seen w.lbuf at
          (nonempty_of_lt lbuf shmem bufsize bs full f depth pos lt) (omega arith) h.sbase h.ssize
          h.lbase h.lsize in
      let lbuf' = blit w.lbuf (lbuf.base + pos) seen (seen.base + pos) full in
      let next = record w {
        lbuf = lbuf';
        shmem = seen;
        bcasts = suc w.bcasts;
        comm = bcast env.sender 1 ∷ w.comm;
      } in
      let h' : HasBuffers next = record {
        lbase = blit-base w.lbuf _ seen _ full ∙ h.lbase;
        lsize = blit-size w.lbuf _ seen _ full ∙ h.lsize;
        sbase = h.sbase;
        ssize = h.ssize;
      } in
      let see' : Visible env content shmem.base full (suc b) (pos + full) m = λ k o lk lo.
        ap (λ (t : ℕ). env.shared t (shmem.base + o)) (omega arith)
        ∙ see (suc k) o (omega arith) (omega arith) in
      let zeroth : b ≡ b + 0 = omega arith in
      let first : (o : ℕ) → o < pos + full → env.shared b (shmem.base + o) ≡ content o = λ o lo.
        ap (λ (t : ℕ). env.shared t (shmem.base + o)) zeroth
        ∙ see 0 o (omega arith) (omega arith) in
      rw (going lbuf shmem bufsize bs full f depth pos p at lt, r, q)
        (Returns.mono
          (recv_loop-Returns m fuel (suc b) (pos + full) p' next r see' (omega arith) (omega arith)
            at' (omega arith) h')
          (λ p'' w' (at'', h'', count, called, got). (
            at'',
            h'',
            omega arith,
            called ∙ repeat_append-cons m (bcast env.sender 1) w.comm,
            Received-piece b pos w w'.lbuf.cell h first eb got,
          )))
