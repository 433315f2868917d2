-- ===== src/Shmem/Iteration.antt =====
-- The iterations of benchmark_shmem in src/bench.c, and an invariant for either side.
use mpidt_benchmark.Base.{
  ℕ, suc, ◌+◌, ◌-◌, ◌%◌, ◌<◌, ◌≡◌, ◌≢◌, refl, ap, ◌∙◌, arith, ne→==, eq→==, List, [], ◌∷◌, true,
  false, repeat_append, Bool-cases, inl, inr, ◌==◌,
}
use mathlib.Core.Path.{ap₂}
use mpidt_benchmark.Memory.{Region, ok, err, assert_failed, blit}
use mpidt_benchmark.Memory.Blit.{blit-base, blit-size, blit-inside}
use mpidt_benchmark.World.{Env, World, Comm, Event, bcast, gather, is_sender, mpi_bcast, wtime}
use mpidt_benchmark.World.Returns.{Returns, returns}
use mpidt_benchmark.Shmem.{num_iter, skip_iter, sender_copy, receiver_copy, shmem_iteration}
use mpidt_benchmark.Shmem.Copy.{
  Fits, covered, whole_iovec, copy_to_shmem-blit, copy_from_shmem-blit,
}

-- Whole blocks cover the buffer exactly when the block size divides its size.
pub covered-eq : (bufsize bs : ℕ) → bufsize % bs ≡ 0 → covered bufsize bs ≡ bufsize
covered-eq bufsize bs h = grind arith

pub covered-ne : (bufsize bs : ℕ) → bufsize % bs ≢ 0 → covered bufsize bs ≢ bufsize
covered-ne bufsize bs h = grind arith

module _ (env : Env) {bufsize bs : ℕ} (w : World) (lb : ℕ) (e : w.lbuf.base ≡ lb)
    (f : Fits w.lbuf w.shmem bufsize bs) where
  sender_copy-ok :
      bufsize % bs ≡ 0
      → sender_copy env (whole_iovec lb bufsize bs) bs bufsize w
        ≡ ok (tt, record w { shmem = blit w.shmem w.shmem.base w.lbuf lb bufsize })
  unfolding sender_copy
  sender_copy-ok exact =
      rw (← e, copy_to_shmem-blit f, covered-eq bufsize bs exact, eq→== bufsize bufsize refl)

  pub sender_copy-err :
      bufsize % bs ≢ 0
      → sender_copy env (whole_iovec lb bufsize bs) bs bufsize w ≡ err assert_failed
  unfolding sender_copy
  sender_copy-err part =
      rw
        (← e, copy_to_shmem-blit f, ne→== (covered bufsize bs) bufsize (covered-ne bufsize bs part))

  receiver_copy-ok :
      bufsize % bs ≡ 0
      → receiver_copy env (whole_iovec lb bufsize bs) bs bufsize w
        ≡ ok (tt, record w { lbuf = blit w.lbuf lb w.shmem w.shmem.base bufsize })
  unfolding receiver_copy
  receiver_copy-ok exact =
      rw (← e, copy_from_shmem-blit f, covered-eq bufsize bs exact, eq→== bufsize bufsize refl)

-- The collective calls of one iteration, newest first.
abbrev pub iteration_comm : Env → List Comm
iteration_comm env = gather env.sender 1 ∷ bcast env.sender 1 ∷ []

-- Where the buffers of a process are, and what it has called, after `i` iterations.
pub record Progress (env : Env) (lbuf shmem : Region) (c0 : List Comm) (i : ℕ) (w : World)
    : Type 0 where
  pub lbase : w.lbuf.base ≡ lbuf.base
  pub lsize : w.lbuf.size ≡ lbuf.size
  pub sbase : w.shmem.base ≡ shmem.base
  pub ssize : w.shmem.size ≡ shmem.size
  pub called : w.comm ≡ repeat_append i (iteration_comm env) c0

abbrev pub Published : Env → Region → Region → ℕ → List Comm → ℕ → World → Type 0
Published env lbuf shmem bufsize c0 i w =
    Progress env lbuf shmem c0 i w
    × (w.lbuf ≡ lbuf)
    × (0 < i → (o : ℕ) → o < bufsize → w.shmem.cell (shmem.base + o) ≡ lbuf.cell (lbuf.base + o))

module _ (env : Env) (lbuf shmem : Region) {bufsize bs : ℕ} (f : Fits lbuf shmem bufsize bs)
    (exact : bufsize % bs ≡ 0) (c0 : List Comm) where
  Fits-Progress :
      {i : ℕ} {w : World} → Progress env lbuf shmem c0 i w → Fits w.lbuf w.shmem bufsize bs
  Fits-Progress p = omega arith

  Fits-Progress' :
      {i : ℕ} {w : World} {cell : ℕ → ℕ}
      → Progress env lbuf shmem c0 i w
      → Fits w.lbuf (record w.shmem { cell = cell }) bufsize bs
  Fits-Progress' p = omega arith

  next-Published :
      (i : ℕ) (w : World) (log : List Event)
      → Published env lbuf shmem bufsize c0 i w
      → Published env lbuf shmem bufsize c0 (suc i) (record w {
        shmem = blit w.shmem w.shmem.base w.lbuf lbuf.base bufsize;
        bcasts = suc w.bcasts;
        comm = gather env.sender 1 ∷ bcast env.sender 1 ∷ w.comm;
        log = log;
      })
  unfolding repeat_append
  next-Published i w log (p, same, shown) = (
    record {
      lbase = p.lbase;
      lsize = p.lsize;
      sbase = blit-base w.shmem _ w.lbuf _ bufsize ∙ p.sbase;
      ssize = blit-size w.shmem _ w.lbuf _ bufsize ∙ p.ssize;
      called = ap (λ (c : List Comm). gather env.sender 1 ∷ bcast env.sender 1 ∷ c) p.called;
    },
    same,
    λ _ o h. rw (← p.sbase) (
        blit-inside w.shmem w.shmem.base w.lbuf lbuf.base bufsize o h
        ∙ ap (λ (r : Region). r.cell (lbuf.base + o)) same),
  )

  pub sender_body :
      is_sender env ≡ true
      → (i : ℕ) (w : World) → i < num_iter + skip_iter
      → Published env lbuf shmem bufsize c0 i w
      → Returns
          (λ _ w'. Published env lbuf shmem bufsize c0 (suc i) w')
          (shmem_iteration env (whole_iovec lbuf.base bufsize bs) bufsize bs i w)
  unfolding shmem_iteration mpi_bcast repeat_append
  sender_body s i w lt (p, same, shown) = elim (Bool-cases (i == skip_iter)) [
    | inl now ↦
        let w' = record w { log = wtime ∷ w.log } in
        rw (now, s, sender_copy-ok env w' lbuf.base p.lbase (Fits-Progress p) exact)
          (returns (next-Published i w (wtime ∷ w.log) (p, same, shown)))
    | inr later ↦
        rw (later, s, sender_copy-ok env w lbuf.base p.lbase (Fits-Progress p) exact)
          (returns (next-Published i w w.log (p, same, shown)))
  ]

  abbrev pub Delivered : ℕ → ℕ → World → Type 0
  Delivered b0 i w =
      Progress env lbuf shmem c0 i w
      × (w.bcasts ≡ b0 + i)
      × (0 < i
          → (o : ℕ) → o < bufsize
          → w.lbuf.cell (lbuf.base + o) ≡ env.shared (b0 + (i - 1)) (shmem.base + o))

  next-Delivered :
      (b0 i : ℕ) (w : World) (log : List Event)
      → Delivered b0 i w
      → let seen = record w.shmem { cell = env.shared w.bcasts } in
        Delivered b0 (suc i) (record w {
          lbuf = blit w.lbuf lbuf.base seen w.shmem.base bufsize;
          shmem = seen;
          bcasts = suc w.bcasts;
          comm = gather env.sender 1 ∷ bcast env.sender 1 ∷ w.comm;
          log = log;
        })
  unfolding repeat_append
  next-Delivered b0 i w log (p, count, got) =
      let seen = record w.shmem { cell = env.shared w.bcasts } in
      (
        record {
          lbase = blit-base w.lbuf _ seen _ bufsize ∙ p.lbase;
          lsize = blit-size w.lbuf _ seen _ bufsize ∙ p.lsize;
          sbase = p.sbase;
          ssize = p.ssize;
          called = ap (λ (c : List Comm). gather env.sender 1 ∷ bcast env.sender 1 ∷ c) p.called;
        },
        omega arith,
        λ _ o h.
            blit-inside w.lbuf lbuf.base seen w.shmem.base bufsize o h
            ∙ ap₂ (λ (b a : ℕ). env.shared b (a + o)) (omega arith) p.sbase,
      )

  pub receiver_body :
      (b0 : ℕ)
      → is_sender env ≡ false
      → (i : ℕ) (w : World) → i < num_iter + skip_iter
      → Delivered b0 i w
      → Returns
          (λ _ w'. Delivered b0 (suc i) w')
          (shmem_iteration env (whole_iovec lbuf.base bufsize bs) bufsize bs i w)
  unfolding shmem_iteration mpi_bcast repeat_append
  receiver_body b0 r i w lt (p, count, got) =
      let after = λ (l : List Event). record w {
        shmem = record w.shmem { cell = env.shared w.bcasts };
        bcasts = suc w.bcasts;
        comm = bcast env.sender 1 ∷ w.comm;
        log = l;
      } in
      elim (Bool-cases (i == skip_iter)) [
        | inl now ↦
            rw
              (
                now,
                r,
                receiver_copy-ok env (after (wtime ∷ w.log)) lbuf.base p.lbase (Fits-Progress' p)
                    exact,
              )
              (returns (next-Delivered b0 i w (wtime ∷ w.log) (p, count, got)))
        | inr later ↦
            rw
              (
                later,
                r,
                receiver_copy-ok env (after w.log) lbuf.base p.lbase (Fits-Progress' p) exact,
              )
              (returns (next-Delivered b0 i w w.log (p, count, got)))
      ]
