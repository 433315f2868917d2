-- ===== src/CmaDt/Run.antt =====
-- Whole runs of the program of src/cma_dt.c, at the sender and at a receiver.
use mpidt_benchmark.Base.{
  Bool-cases, inl, inr, ℕ, suc, ◌+◌, ◌*◌, ◌/◌, ◌%◌, ◌≤◌, ◌<◌, ◌≡◌, ◌⊎◌, refl, ap, arith, List, ◌∷◌,
  true, false, lt→ltb, leb, ltb, ◌&&◌, if◌then◌else◌, repeat_append,
}
use mpidt_benchmark.Memory.{Region, memset}
use mpidt_benchmark.Memory.Blit.{within-true}
use mpidt_benchmark.World.{
  Env, World, Comm, bcast, init, barrier, finalize, alloc, getpid, is_sender, mpi_bcast,
  memalign_lbuf,
}
use mpidt_benchmark.World.Returns
use mpidt_benchmark.World.Returns.{Returns, returns, for-Returns}
use mpidt_benchmark.Shmem.{num_iter, skip_iter, new_dummybuf, free_dummybuf}
use mpidt_benchmark.Shmem.Copy.{Fits, whole_iovec, divide-ok}
use mpidt_benchmark.ShmemDt.Run.{new_lbuf}
use mpidt_benchmark.Cma.{Readv, pid_bytes}
use mpidt_benchmark.Cma.Iteration.{cma_comm, Reads, State, sender_body, receiver_body}
use mpidt_benchmark.CmaDt.{iteration, fill_all, main}
use mpidt_benchmark.CmaDt.Iteration.{cma_iteration-eq}

-- The collective calls of the program, newest first.
abbrev pub cma_main_comm : Env → ℕ → List Comm → List Comm
cma_main_comm env n c =
    finalize
    ∷ barrier
    ∷ repeat_append (num_iter + skip_iter) (cma_comm env n)
        (barrier ∷ bcast env.sender pid_bytes ∷ init ∷ c)

module _ (env : Env) (read : Readv) (bufsize bs : ℕ) (w : World)
    (f : Fits (new_lbuf env bufsize) env.peer bufsize bs)
    (sys : Reads env read env.heap_base bufsize bs) (some_bytes : 0 < bufsize)
    (exact : bufsize % bs ≡ 0) where
  -- The local buffer behind its memset.
  abbrev lbuf : Region
  lbuf = record {
    base = env.heap_base;
    size = bufsize;
    cell =
        λ a. if leb env.heap_base a && ltb a (env.heap_base + bufsize) then b'x' else env.garbage a;
  }

  abbrev fits : Fits lbuf env.peer bufsize bs
  fits = record {
    positive = f.positive;
    int_range = f.int_range;
    lbuf_room = f.lbuf_room;
    shmem_room = f.shmem_room;
    lbuf_end = f.lbuf_end;
    shmem_end = f.shmem_end;
  }

  c0 : List Comm
  c0 = barrier ∷ bcast env.sender pid_bytes ∷ init ∷ w.comm

  few : bufsize / bs ≤ bufsize
  few = grind arith

  start :
      (w' : World)
      → w'.lbuf.base ≡ env.heap_base
      → w'.lbuf.size ≡ bufsize
      → w'.comm ≡ c0
      → State env read lbuf bufsize bs fits sys exact c0 0 w'
  unfolding repeat_append
  start w' b n c = record { base = b; size = n; called = c; got = λ h. absurd (omega arith) }

  cma_main-sender :
      is_sender env ≡ true
      → Returns
          (λ _ w'. w'.comm ≡ cma_main_comm env (bufsize / bs) w.comm)
          (main env read 3 bs bufsize w)
  unfolding main fill_all memset memalign_lbuf new_dummybuf free_dummybuf mpi_bcast c0
  cma_main-sender s =
      let iov = whole_iovec env.heap_base bufsize bs in
      let w2 : World = record w {
        lbuf = lbuf;
        bcasts = suc w.bcasts;
        blocks = suc (suc (suc (suc (suc w.blocks))));
        comm = c0;
        log =
            alloc (suc (suc (suc (suc w.blocks)))) env.size
            ∷ alloc (suc (suc (suc w.blocks))) (16 * (bufsize / bs))
            ∷ alloc (suc (suc w.blocks)) (16 * (bufsize / bs))
            ∷ alloc (suc w.blocks) bufsize
            ∷ alloc w.blocks bufsize
            ∷ getpid
            ∷ w.log;
      } in
      let loop =
        for-Returns (State env read lbuf bufsize bs fits sys exact c0) (num_iter + skip_iter)
          (iteration env read iov (bufsize / bs) bufsize)
          (λ i w' lt st.
            rw
              (cma_iteration-eq env read iov (bufsize / bs) bufsize i w'
                (omega (arith, few, f.int_range)))
              (sender_body env read lbuf bufsize bs fits sys exact c0 s i w' lt st))
          (num_iter + skip_iter) 0 refl w2 (start w2 refl refl refl) in
      rw
        (
          s,
          divide-ok bufsize bs f.positive,
          lt→ltb 0 bs f.positive,
          lt→ltb 0 bufsize some_bytes,
          within-true (new_lbuf env bufsize) env.heap_base bufsize (omega arith) (omega arith),
        )
        (Returns.bind loop
          λ _ w' st. returns (ap (λ (c : List Comm). finalize ∷ barrier ∷ c) st.called))

  cma_main-receiver :
      is_sender env ≡ false
      → (bufsize / bs < env.iov_limit) ⊎ (bufsize / bs % env.iov_limit ≡ 0)
      → Returns
          (λ _ w'.
            (w'.comm ≡ cma_main_comm env (bufsize / bs) w.comm)
            × ((o : ℕ)
                → o < bufsize
                → w'.lbuf.cell (env.heap_base + o) ≡ env.peer.cell (env.peer.base + o)))
          (main env read 3 bs bufsize w)
  unfolding main fill_all memset memalign_lbuf new_dummybuf free_dummybuf mpi_bcast c0
  cma_main-receiver r how =
      let iov = whole_iovec env.heap_base bufsize bs in
      let w2 : World = record w {
        lbuf = lbuf;
        shmem = record w.shmem { cell = env.shared w.bcasts };
        bcasts = suc w.bcasts;
        blocks = suc (suc (suc (suc w.blocks)));
        comm = c0;
        log =
            alloc (suc (suc (suc w.blocks))) (16 * (bufsize / bs))
            ∷ alloc (suc (suc w.blocks)) (16 * (bufsize / bs))
            ∷ alloc (suc w.blocks) bufsize
            ∷ alloc w.blocks bufsize
            ∷ w.log;
      } in
      let loop =
        for-Returns (State env read lbuf bufsize bs fits sys exact c0) (num_iter + skip_iter)
          (iteration env read iov (bufsize / bs) bufsize)
          (λ i w' lt st.
            rw
              (cma_iteration-eq env read iov (bufsize / bs) bufsize i w'
                (omega (arith, few, f.int_range)))
              (receiver_body env read lbuf bufsize bs fits sys exact c0 r some_bytes how i w' lt
                st))
          (num_iter + skip_iter) 0 refl w2 (start w2 refl refl refl) in
      rw
        (
          r,
          divide-ok bufsize bs f.positive,
          lt→ltb 0 bs f.positive,
          lt→ltb 0 bufsize some_bytes,
          within-true (new_lbuf env bufsize) env.heap_base bufsize (omega arith) (omega arith),
        )
        (Returns.bind loop λ _ w' st. returns (
          ap (λ (c : List Comm). finalize ∷ barrier ∷ c) st.called,
          λ o h. st.got (omega arith) r o h,
        ))

  -- Under the bounds of Fits, for two arguments, a positive block size that divides a buffer size of
  -- at least one byte, at a receiver a number of blocks below the kernel's limit or divisible by it,
  -- an array whose bytes an int counts, and a process_vm_readv that makes full transfers of as many
  -- blocks as its limit allows: the program cma_dt runs to its end at
  -- every process, without error, access outside of an array or a buffer, or failed assertion; its
  -- collective calls are those of `cma_main_comm`; and a receiver has the sender's bytes in its own
  -- buffer.
  pub cma_main-runs :
      (is_sender env ≡ false → (bufsize / bs < env.iov_limit) ⊎ (bufsize / bs % env.iov_limit ≡ 0))
      → Returns
          (λ _ w'.
            (w'.comm ≡ cma_main_comm env (bufsize / bs) w.comm)
            × (is_sender env ≡ false
                → (o : ℕ) → o < bufsize
                → w'.lbuf.cell (env.heap_base + o) ≡ env.peer.cell (env.peer.base + o)))
          (main env read 3 bs bufsize w)
  cma_main-runs how = elim (Bool-cases (is_sender env)) [
    | inl s ↦ Returns.mono (cma_main-sender s) λ _ w' called. (called, λ r. absurd (cc))
    | inr r ↦
        Returns.mono (cma_main-receiver r (how r)) λ _ w' (called, got). (called, λ _ o h. got o h)
  ]
