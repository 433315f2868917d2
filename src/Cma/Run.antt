-- ===== src/Cma/Run.antt =====
-- Whole runs of benchmark_cma in src/bench.c, at the sender and at a receiver.
use mpidt_benchmark.Base.{
  ℕ, suc, ◌+◌, ◌*◌, ◌/◌, ◌%◌, ◌≤◌, ◌<◌, ◌≡◌, ◌≢◌, ◌⊎◌, refl, ap, ◌∙◌, arith, List, ◌∷◌, true, false,
  repeat_append,
}
use mpidt_benchmark.Word.{narrow-id, rounds-id}
use mpidt_benchmark.Memory.{SamePlace, ok, err, segfault}
use mpidt_benchmark.Iovec.{Iovec}
use mpidt_benchmark.World.{
  Env, World, Comm, bcast, barrier, alloc, is_sender, mpi_bcast, for, getpid,
}
use mpidt_benchmark.World.Returns
use mpidt_benchmark.World.Returns.{Returns, returns, for-Returns, stamp}
use mpidt_benchmark.Shmem.{num_iter, skip_iter, new_dummybuf, free_dummybuf}
use mpidt_benchmark.Shmem.Copy.{Fits, whole_iovec, divide-ok}
use mpidt_benchmark.Shmem.Run.{filled, fill_lbuf-ok}
use mpidt_benchmark.Cma.{
  Readv, bcast_iov, iovec_bytes, pid_bytes, cma_round, cma_iteration, benchmark_cma,
}
use mpidt_benchmark.Cma.Iteration.{
  cma_run_comm, Reads, bcast_iov-ok, State, sender_body, receiver_body, read_remote-err,
}

module _ (env : Env) (read : Readv) (bufsize bs : ℕ) (w : World)
    (f : Fits w.lbuf env.peer bufsize bs) (sys : Reads env read w.lbuf.base bufsize bs)
    (exact : bufsize % bs ≡ 0) where
  abbrev iov : List Iovec
  iov = whole_iovec w.lbuf.base bufsize bs

  abbrev blocks : ℕ
  blocks = bufsize / bs

  abbrev fits : Fits (filled env w.lbuf bufsize) env.peer bufsize bs
  fits = record {
    positive = f.positive;
    int_range = f.int_range;
    lbuf_room = f.lbuf_room;
    shmem_room = f.shmem_room;
    lbuf_end = f.lbuf_end;
    shmem_end = f.shmem_end;
  }

  blocks-le : blocks ≤ bufsize
  blocks-le = grind arith

  start :
      (c0 : List Comm) (w' : World)
      → w'.lbuf.base ≡ w.lbuf.base
      → w'.lbuf.size ≡ w.lbuf.size
      → w'.comm ≡ c0
      → State env read (filled env w.lbuf bufsize) bufsize bs fits sys exact c0 0 w'
  unfolding repeat_append
  start c0 w' b n c = record { base = b; size = n; called = c; got = λ h. absurd (omega arith) }

  pub benchmark_cma-sender_places :
      is_sender env ≡ true
      → Returns
          (λ _ w'. SamePlace w.lbuf w'.lbuf × (w'.comm ≡ cma_run_comm env (bufsize / bs) w.comm))
          (benchmark_cma env read (whole_iovec w.lbuf.base bufsize bs) bufsize bs w)
  unfolding benchmark_cma new_dummybuf free_dummybuf mpi_bcast
  benchmark_cma-sender_places s =
      let w1 = record w {
        bcasts = suc w.bcasts;
        blocks = suc w.blocks;
        comm = bcast env.sender pid_bytes ∷ w.comm;
        log = alloc w.blocks env.size ∷ getpid ∷ w.log;
      } in
      let w2 = record w1 { lbuf = filled env w.lbuf bufsize } in
      let loop =
        for-Returns (State env read _ bufsize bs fits sys exact w1.comm) (num_iter + skip_iter)
          (cma_iteration env read iov blocks bufsize)
          (sender_body env read _ bufsize bs fits sys exact w1.comm s) (num_iter + skip_iter) 0 refl
          w2 (start w1.comm w2 refl refl refl) in
      rw
        (
          divide-ok bufsize bs f.positive,
          narrow-id blocks (omega (arith, blocks-le, f.int_range)),
          s,
          fill_lbuf-ok env bufsize w1 f.lbuf_room,
        )
        (Returns.bind loop λ _ w' st. returns (
          record { base = st.base; size = st.size },
          ap (λ (c : List Comm). barrier ∷ c) st.called,
        ))

  pub benchmark_cma-receiver_places :
      is_sender env ≡ false
      → 0 < bufsize
      → (bufsize / bs < env.iov_limit) ⊎ (bufsize / bs % env.iov_limit ≡ 0)
      → Returns
          (λ _ w'.
            SamePlace w.lbuf w'.lbuf
            × (w'.comm ≡ cma_run_comm env (bufsize / bs) w.comm)
            × ((o : ℕ)
                → o < bufsize
                → w'.lbuf.cell (w.lbuf.base + o) ≡ env.peer.cell (env.peer.base + o)))
          (benchmark_cma env read (whole_iovec w.lbuf.base bufsize bs) bufsize bs w)
  unfolding benchmark_cma new_dummybuf free_dummybuf mpi_bcast
  benchmark_cma-receiver_places r some_bytes how =
      let w1 = record w {
        shmem = record w.shmem { cell = env.shared w.bcasts };
        bcasts = suc w.bcasts;
        comm = bcast env.sender pid_bytes ∷ w.comm;
      } in
      let w2 = record w1 { lbuf = filled env w.lbuf bufsize } in
      let loop =
        for-Returns (State env read _ bufsize bs fits sys exact w1.comm) (num_iter + skip_iter)
          (cma_iteration env read iov blocks bufsize)
          (receiver_body env read _ bufsize bs fits sys exact w1.comm r some_bytes how)
          (num_iter + skip_iter) 0 refl w2 (start w1.comm w2 refl refl refl) in
      rw
        (
          divide-ok bufsize bs f.positive,
          narrow-id blocks (omega (arith, blocks-le, f.int_range)),
          r,
          fill_lbuf-ok env bufsize w1 f.lbuf_room,
        )
        (Returns.bind loop λ _ w' st. returns (
          record { base = st.base; size = st.size },
          ap (λ (c : List Comm). barrier ∷ c) st.called,
          st.got (omega arith) r,
        ))

  -- Under the bounds of Fits, for a block size that divides the buffer size and the system of
  -- Reads, the sender's run of benchmark_cma ends without error: it
  -- broadcasts its process number once and its iovec array in each of the 110 iterations, with a
  -- gather behind each, and a barrier at the end.
  pub benchmark_cma-sender :
      is_sender env ≡ true
      → Returns
          (λ _ w'. w'.comm ≡ cma_run_comm env (bufsize / bs) w.comm)
          (benchmark_cma env read (whole_iovec w.lbuf.base bufsize bs) bufsize bs w)
  benchmark_cma-sender s = Returns.mono (benchmark_cma-sender_places s) λ _ w' (l, calls). calls

  -- Under the bounds of Fits, for a block size that divides a buffer that is not empty, a number of
  -- blocks below the kernel's limit or divisible by it, an array whose bytes an int counts, and a
  -- process_vm_readv that makes full transfers of as many blocks as its limit allows, a receiver's run of benchmark_cma ends without error or failed assertion,
  -- makes the collective calls of `cma_run_comm`, as the sender does, and leaves the sender's bytes
  -- in its own buffer.
  pub benchmark_cma-receiver :
      is_sender env ≡ false
      → 0 < bufsize
      → (bufsize / bs < env.iov_limit) ⊎ (bufsize / bs % env.iov_limit ≡ 0)
      → Returns
          (λ _ w'.
            (w'.comm ≡ cma_run_comm env (bufsize / bs) w.comm)
            × ((o : ℕ)
                → o < bufsize
                → w'.lbuf.cell (w.lbuf.base + o) ≡ env.peer.cell (env.peer.base + o)))
          (benchmark_cma env read (whole_iovec w.lbuf.base bufsize bs) bufsize bs w)
  benchmark_cma-receiver r some_bytes how =
      Returns.mono (benchmark_cma-receiver_places r some_bytes how)
        λ _ w' (l, calls, bytes). (calls, bytes)

  -- Under the bounds of Fits, for whole blocks, a number of blocks that reaches the kernel's limit
  -- and is not a multiple of it, an array whose bytes an int counts, and a process_vm_readv that makes
  -- full transfers of as many blocks as its limit allows, a
  -- receiver's run of benchmark_cma ends with an access outside of an array.
  pub benchmark_cma-beyond :
      is_sender env ≡ false
      → env.iov_limit ≤ bufsize / bs
      → bufsize / bs % env.iov_limit ≢ 0
      → benchmark_cma env read (whole_iovec w.lbuf.base bufsize bs) bufsize bs w ≡ err segfault
  unfolding benchmark_cma new_dummybuf mpi_bcast cma_iteration cma_round for
  benchmark_cma-beyond r many part =
      let w1 = record w {
        shmem = record w.shmem { cell = env.shared w.bcasts };
        bcasts = suc w.bcasts;
        comm = bcast env.sender pid_bytes ∷ w.comm;
      } in
      let w2 = record w1 { lbuf = filled env w.lbuf bufsize } in
      let w3 = record w2 {
        shmem = record w.shmem { cell = env.shared (suc w.bcasts) };
        bcasts = suc (suc w.bcasts);
        comm = bcast env.sender (blocks * iovec_bytes) ∷ bcast env.sender pid_bytes ∷ w.comm;
      } in
      let sent : bcast_iov env blocks w2 ≡ ok (tt, w3) =
        bcast_iov-ok env blocks w2 sys.count ∙ rw r refl in
      rw (
        divide-ok bufsize bs f.positive,
        narrow-id blocks (omega (arith, blocks-le, f.int_range)),
        r,
        fill_lbuf-ok env bufsize w1 f.lbuf_room,
        sent,
        rounds-id blocks (omega (arith, blocks-le, f.int_range)),
        read_remote-err env read _ bufsize bs fits sys exact w3 many part,
      )
