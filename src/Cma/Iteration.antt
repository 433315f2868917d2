-- ===== src/Cma/Iteration.antt =====
-- The iterations of benchmark_cma in src/bench.c, and an invariant for either side.
use mpidt_benchmark.Base.{
  ℕ, suc, ◌+◌, ◌*◌, ◌/◌, ◌%◌, ◌≤◌, ◌<◌, ◌≡◌, ◌≢◌, ◌⊎◌, refl, ap, ◌∙◌, arith, List, [], ◌∷◌, true,
  false, ◌==◌, eq→==, repeat_append, ◌^◌, lt→ltb,
}
use mpidt_benchmark.Word.{narrow-id, rounds-id}
use mpidt_benchmark.Memory.{Region, ok, err, segfault, blit}
use mpidt_benchmark.Memory.Blit.{blit-base, blit-size, blit-inside}
use mpidt_benchmark.Iovec.{Iovec}
use mpidt_benchmark.World.{Env, World, Comm, bcast, gather, barrier, is_sender, mpi_bcast, wtime}
use mpidt_benchmark.World.Returns.{Returns, returns, stamp}
use mpidt_benchmark.Shmem.{num_iter, skip_iter}
use mpidt_benchmark.Shmem.Copy.{Fits, whole_iovec}
use mpidt_benchmark.Shmem.Iteration.{covered-eq}
use mpidt_benchmark.Cma.{
  Readv, bcast_iov, iovec_bytes, pid_bytes, read_remote, cma_round, cma_iteration,
}
use mpidt_benchmark.Cma.Read.{ReadsBlocks, read_loop-whole, read_loop-beyond}

-- An array whose bytes an int counts is broadcast.
pub bcast_iov-ok :
    (env : Env) (n : ℕ) (w : World)
    → n * iovec_bytes < 2 ^ 31
    → bcast_iov env n w ≡ mpi_bcast env (n * iovec_bytes) w
unfolding bcast_iov
bcast_iov-ok env n w h =
    rw (narrow-id (n * iovec_bytes) h, lt→ltb (n * iovec_bytes) (2 ^ 63) (omega arith)) refl

-- The collective calls of one iteration over `n` blocks, newest first.
abbrev pub cma_comm : Env → ℕ → List Comm
cma_comm env n = gather env.sender 1 ∷ bcast env.sender (n * iovec_bytes) ∷ []

abbrev pub cma_run_comm : Env → ℕ → List Comm → List Comm
cma_run_comm env n c =
    barrier ∷ repeat_append (num_iter + skip_iter) (cma_comm env n) (bcast env.sender pid_bytes ∷ c)

-- MPI can count the bytes of the sender's array, which has arrived, and the system call transfers its
-- blocks, as many as its limit allows at once.
pub record Reads (env : Env) (read : Readv) (lbase bufsize bs : ℕ) : Type 0 where
  pub count : bufsize / bs * iovec_bytes < 2 ^ 31
  pub some_limit : 0 < env.iov_limit
  pub arrived : env.peer_iov ≡ whole_iovec env.peer.base bufsize bs
  pub transfers : ReadsBlocks read env.iov_limit lbase env.peer.base bs (bufsize / bs * bs) env.peer

module _ (env : Env) (read : Readv) (lbuf : Region) (bufsize bs : ℕ)
    (f : Fits lbuf env.peer bufsize bs) (sys : Reads env read lbuf.base bufsize bs)
    (exact : bufsize % bs ≡ 0) where
  abbrev liov : List Iovec
  liov = whole_iovec lbuf.base bufsize bs

  abbrev nblocks : ℕ
  nblocks = bufsize / bs

  nblocks-le : nblocks ≤ bufsize
  nblocks-le = grind arith

  read_remote-ok :
      (w : World)
      → w.lbuf.base ≡ lbuf.base
      → 0 < bufsize
      → (nblocks < env.iov_limit) ⊎ (nblocks % env.iov_limit ≡ 0)
      → read_remote env read liov nblocks bufsize w
        ≡ ok (tt, record w { lbuf = blit w.lbuf lbuf.base env.peer env.peer.base bufsize })
  unfolding read_remote
  read_remote-ok w eb some_bytes how =
      let all = covered-eq bufsize bs exact in
      let nonempty : 0 < nblocks = grind (arith, all) in
      let loop =
        read_loop-whole read env.iov_limit nblocks lbuf.base env.peer.base bs env.peer sys.transfers
          f.positive sys.some_limit (omega (arith, f.int_range)) (omega (arith, f.lbuf_end))
          (omega (arith, f.shmem_end)) w.lbuf nonempty how in
      let loop' = rw all at loop in rw (sys.arrived, loop', eq→== bufsize bufsize refl)

  pub read_remote-err :
      (w : World)
      → env.iov_limit ≤ nblocks
      → nblocks % env.iov_limit ≢ 0
      → read_remote env read liov nblocks bufsize w ≡ err segfault
  unfolding read_remote
  read_remote-err w many part =
      let all = covered-eq bufsize bs exact in
      let loop =
        read_loop-beyond read env.iov_limit nblocks lbuf.base env.peer.base bs env.peer
          sys.transfers f.positive sys.some_limit (omega (arith, f.int_range))
          (omega (arith, f.lbuf_end)) (omega (arith, f.shmem_end)) w.lbuf many part in
      let loop' = rw all at loop in rw (sys.arrived, loop')

  -- The state of a process after `i` iterations; a receiver has the sender's bytes from the first on.
  pub record State (c0 : List Comm) (i : ℕ) (w : World) : Type 0 where
    pub base : w.lbuf.base ≡ lbuf.base
    pub size : w.lbuf.size ≡ lbuf.size
    pub called : w.comm ≡ repeat_append i (cma_comm env nblocks) c0
    pub got :
        0 < i
        → is_sender env ≡ false
        → (o : ℕ) → o < bufsize
        → w.lbuf.cell (lbuf.base + o) ≡ env.peer.cell (env.peer.base + o)

  pub sender_body :
      (c0 : List Comm)
      → is_sender env ≡ true
      → (i : ℕ) (w : World) → i < num_iter + skip_iter
      → State c0 i w
      → Returns (λ _ w'. State c0 (suc i) w') (cma_iteration env read liov nblocks bufsize i w)
  unfolding cma_iteration
  sender_body c0 s i w lt st =
      stamp (i == skip_iter) wtime (cma_round env read liov nblocks bufsize) w λ l.
        unfold cma_round mpi_bcast repeat_append in
        rw (bcast_iov-ok env nblocks _ sys.count, s)
          (returns (record {
            base = st.base;
            size = st.size;
            called =
                ap
                  (λ (c : List Comm).
                    gather env.sender 1 ∷ bcast env.sender (nblocks * iovec_bytes) ∷ c)
                  st.called;
            got = λ _ r. cc;
          }))

  pub receiver_body :
      (c0 : List Comm)
      → is_sender env ≡ false
      → 0 < bufsize
      → (nblocks < env.iov_limit) ⊎ (nblocks % env.iov_limit ≡ 0)
      → (i : ℕ) (w : World) → i < num_iter + skip_iter
      → State c0 i w
      → Returns (λ _ w'. State c0 (suc i) w') (cma_iteration env read liov nblocks bufsize i w)
  unfolding cma_iteration cma_round mpi_bcast repeat_append
  receiver_body c0 r some_bytes how i w lt st =
      stamp (i == skip_iter) wtime (cma_round env read liov nblocks bufsize) w λ l.
        let seen = record w {
          shmem = record w.shmem { cell = env.shared w.bcasts };
          bcasts = suc w.bcasts;
          comm = bcast env.sender (nblocks * iovec_bytes) ∷ w.comm;
          log = l;
        } in
        rw
          (
            bcast_iov-ok env nblocks _ sys.count,
            r,
            rounds-id nblocks (omega (arith, nblocks-le, f.int_range)),
            read_remote-ok seen st.base some_bytes how,
          )
          (returns (record {
            base = blit-base w.lbuf _ env.peer _ bufsize ∙ st.base;
            size = blit-size w.lbuf _ env.peer _ bufsize ∙ st.size;
            called =
                ap
                  (λ (c : List Comm).
                    gather env.sender 1 ∷ bcast env.sender (nblocks * iovec_bytes) ∷ c)
                  st.called;
            got = λ _ _ o h. blit-inside w.lbuf lbuf.base env.peer env.peer.base bufsize o h;
          }))
