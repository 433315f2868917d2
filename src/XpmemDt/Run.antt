-- ===== src/XpmemDt/Run.antt =====
-- Whole runs of src/xpmem_dt.c and src/xpmem_cache_dt.c, at every process.
use mpidt_benchmark.Base.{
  ℕ, suc, ◌+◌, ◌*◌, ◌/◌, ◌^◌, ◌≤◌, ◌<◌, ◌≡◌, refl, ap, arith, true, false, Bool, List, [], ◌∷◌,
  Bool-cases, inl, inr, lt→ltb, repeat_append,
}
use mpidt_benchmark.World.{
  Env, World, Comm, M, bcast, init, barrier, finalize, alloc, seg_make, is_sender, mpi_bcast,
  memalign_lbuf,
}
use mpidt_benchmark.World.Returns
use mpidt_benchmark.World.Returns.{Returns, returns}
use mpidt_benchmark.Shmem.{num_iter, skip_iter, new_dummybuf, free_dummybuf}
use mpidt_benchmark.Shmem.Copy.{divide-ok}
use mpidt_benchmark.Shmem.Run.{filled, fill_lbuf-ok}
use mpidt_benchmark.ShmemDt.Run.{new_lbuf}
use mpidt_benchmark.Cma.{iovec_bytes}
use mpidt_benchmark.Cma.Iteration.{cma_comm}
use mpidt_benchmark.Xpmem.{Outcome, no_page, release_apid}
use mpidt_benchmark.Xpmem.Attach.{IsSource}
use mpidt_benchmark.Xpmem.Loops.{Called, HasBytes, nocache_loop-sender}
use mpidt_benchmark.Xpmem.Loops.Cached.{cached_loop-sender}
use mpidt_benchmark.Xpmem.Shapes.{IsShape, nocache_loop-Ends, cached_loop-Ends}
use mpidt_benchmark.XpmemDt.{run, start, nocache_main, cached_main}
use mpidt_benchmark.XpmemDt.Loops.{nocache_loop-eq, cached_loop-eq}

-- The collective calls of the programs, newest first.
abbrev pub xpmem_main_comm : Env → ℕ → List Comm → List Comm
xpmem_main_comm env n c =
    finalize
    ∷ barrier
    ∷ repeat_append (num_iter + skip_iter) (cma_comm env n)
        (barrier ∷ bcast env.sender env.segid_bytes ∷ init ∷ c)

module _ (env : Env) (bufsize bs : ℕ) (w : World) (pos : 0 < bs) (some_bytes : 0 < bufsize)
    (int_range : bufsize < 2 ^ 31) (works : env.xpmem_works ≡ true) where
  abbrev n : ℕ
  n = bufsize / bs

  -- The state in front of the loop, at the sender and at a receiver.
  abbrev sending : World
  sending = record w {
    lbuf = filled env (new_lbuf env bufsize) bufsize;
    bcasts = suc w.bcasts;
    blocks = suc (suc (suc (suc (suc w.blocks))));
    comm = barrier ∷ bcast env.sender env.segid_bytes ∷ init ∷ w.comm;
    log =
        alloc (suc (suc (suc (suc w.blocks)))) env.size
        ∷ alloc (suc (suc (suc w.blocks))) (8 * n)
        ∷ alloc (suc (suc w.blocks)) (16 * n)
        ∷ alloc (suc w.blocks) bufsize
        ∷ alloc w.blocks bufsize
        ∷ seg_make
        ∷ w.log;
  }

  abbrev receiving : World
  receiving = record w {
    lbuf = filled env (new_lbuf env bufsize) bufsize;
    shmem = record w.shmem { cell = env.shared w.bcasts };
    bcasts = suc w.bcasts;
    blocks = suc (suc (suc (suc w.blocks)));
    comm = barrier ∷ bcast env.sender env.segid_bytes ∷ init ∷ w.comm;
    log =
        alloc (suc (suc (suc w.blocks))) (8 * n)
        ∷ alloc (suc (suc w.blocks)) (16 * n)
        ∷ alloc (suc w.blocks) bufsize
        ∷ alloc w.blocks bufsize
        ∷ w.log;
  }

  -- The state in front of memset.
  abbrev sender_allocated : World
  sender_allocated = record w {
    lbuf = new_lbuf env bufsize;
    bcasts = suc w.bcasts;
    blocks = suc (suc w.blocks);
    comm = bcast env.sender env.segid_bytes ∷ init ∷ w.comm;
    log = alloc (suc w.blocks) bufsize ∷ alloc w.blocks bufsize ∷ seg_make ∷ w.log;
  }

  start-sender :
      (loop : ℕ → M Outcome) (iov_first : Bool)
      → is_sender env ≡ true
      → Returns (λ o w'. Called env n (num_iter + skip_iter) sending.comm o w') (loop n sending)
      → Returns
          (λ _ w'. w'.comm ≡ xpmem_main_comm env n w.comm)
          (start env loop iov_first 3 bs bufsize w)
  unfolding start run mpi_bcast memalign_lbuf new_dummybuf free_dummybuf release_apid
  start-sender loop iov_first s ends =
      rw (divide-ok bufsize bs pos, lt→ltb 0 bs pos, lt→ltb 0 bufsize some_bytes)
        (simp works (
          rw (s, fill_lbuf-ok env bufsize sender_allocated (omega arith))
            (Returns.bind ends λ o w' (done, called).
              let ends_well = ap (λ (c : List Comm). finalize ∷ barrier ∷ c) called in
              rw done (elim (Bool-cases env.junk_apid) [
                | inl junk ↦ simp junk (elim (Bool-cases iov_first) [
                  | inl iov ↦ rw iov (returns ends_well)
                  | inr dummy ↦ rw dummy (returns ends_well)
                ])
                | inr clear ↦ simp clear (elim (Bool-cases iov_first) [
                  | inl iov ↦ rw iov (returns ends_well)
                  | inr dummy ↦ rw dummy (returns ends_well)
                ])
              ]))))

  module _ (source : IsSource env bs n) (r : is_sender env ≡ false) (whole : n * bs ≤ bufsize)
      (fits : env.heap_base + n * bs < 2 ^ 64) where
    abbrev receiver_allocated : World
    receiver_allocated = record w {
      lbuf = new_lbuf env bufsize;
      shmem = record w.shmem { cell = env.shared w.bcasts };
      bcasts = suc w.bcasts;
      blocks = suc (suc w.blocks);
      comm = bcast env.sender env.segid_bytes ∷ init ∷ w.comm;
      log = alloc (suc w.blocks) bufsize ∷ alloc w.blocks bufsize ∷ w.log;
    }

    start-receiver :
        (loop : ℕ → M Outcome) (iov_first : Bool)
        → Returns
            (λ o w'.
              Called env n (num_iter + skip_iter) receiving.comm o w'
              × HasBytes env bs n source r env.heap_base bufsize fits whole w')
            (loop n receiving)
        → Returns
            (λ _ w'.
              (w'.comm ≡ xpmem_main_comm env n w.comm)
              × ((o : ℕ)
                  → o < n * bs
                  → w'.lbuf.cell (env.heap_base + o) ≡ env.peer.cell (env.peer.base + o)))
            (start env loop iov_first 3 bs bufsize w)
    unfolding start run mpi_bcast memalign_lbuf new_dummybuf free_dummybuf release_apid
    start-receiver loop iov_first ends =
        rw (divide-ok bufsize bs pos, lt→ltb 0 bs pos, lt→ltb 0 bufsize some_bytes)
          (simp works (
            rw (r, fill_lbuf-ok env bufsize receiver_allocated (omega arith))
              (Returns.bind ends λ o w' ((done, called), bytes).
                let ends_well = ap (λ (c : List Comm). finalize ∷ barrier ∷ c) called in
                rw done (elim (Bool-cases iov_first) [
                  | inl iov ↦ rw iov (returns (ends_well, bytes.got))
                  | inr dummy ↦ rw dummy (returns (ends_well, bytes.got))
                ]))))

-- Both programs with their loops: at the sender the loop only communicates.
module _ (env : Env) (bufsize bs : ℕ) (w : World) (pos : 0 < bs) (some_bytes : 0 < bufsize)
    (int_range : bufsize < 2 ^ 31) (works : env.xpmem_works ≡ true)
    (fits : env.heap_base + bufsize < 2 ^ 64) (count : bufsize / bs * iovec_bytes < 2 ^ 31)
    (source : is_sender env ≡ false
      → IsSource env bs (bufsize / bs) × IsShape env bs (bufsize / bs)) where
  abbrev blocks : ℕ
  blocks = bufsize / bs

  whole : blocks * bs ≤ bufsize
  whole = grind arith

  inside : env.heap_base + blocks * bs < 2 ^ 64
  inside = omega (arith, whole)

  -- For every process, two arguments with a positive block size and at least one byte, an XPMEM
  -- driver that works, an array whose bytes an int counts, and a sender's array whose blocks can be attached, and are of at least a page
  -- or inside of pages: the program xpmem_cache_dt runs to its end without error, with the
  -- collective calls of `xpmem_main_comm`, and a receiver has the bytes of all the sender's whole
  -- blocks in its own buffer.
  pub xpmem_cached_main-runs :
      Returns
        (λ _ w'.
          (w'.comm ≡ xpmem_main_comm env (bufsize / bs) w.comm)
          × (is_sender env ≡ false
              → (o : ℕ) → o < bufsize / bs * bs
              → w'.lbuf.cell (env.heap_base + o) ≡ env.peer.cell (env.peer.base + o)))
        (cached_main env 3 bs bufsize w)
  unfolding cached_main
  xpmem_cached_main-runs = elim (Bool-cases (is_sender env)) [
    | inl s ↦
        Returns.mono
          (start-sender env bufsize bs w pos some_bytes int_range works _ false s (
            rw
              (cached_loop-eq env blocks count 110 0 [] no_page
                (sending env bufsize bs w pos some_bytes int_range works))
              (Returns.mono (cached_loop-sender env blocks s count 110 0 [] no_page _)
                λ o w' idle. idle.0)))
          λ _ w' calls. (calls, λ r. absurd (cc))
    | inr r ↦
        let (blocks_of, shape) = source r in
        Returns.mono
          (start-receiver env bufsize bs w pos some_bytes int_range works blocks_of r whole inside _
            false
            (rw
              (cached_loop-eq env blocks count 110 0 [] no_page
                (receiving env bufsize bs w pos some_bytes int_range works))
              (cached_loop-Ends env bs blocks blocks_of shape r env.heap_base bufsize inside whole
                count _ refl refl)))
          λ _ w' (calls, bytes). (calls, λ _. bytes)
  ]

  -- For every process, two arguments with a positive block size and at least one byte, an XPMEM
  -- driver that works, an array whose bytes an int counts, and a sender's array whose blocks can be attached, and are of at least a page,
  -- or inside of pages and together of more than one page: the program xpmem_dt runs to its end
  -- without error, with the collective calls of `xpmem_main_comm`, and a receiver has the bytes of
  -- all the sender's whole blocks in its own buffer.
  pub xpmem_nocache_main-runs :
      (bs < env.page_size → env.page_size < bufsize / bs * bs)
      → Returns
          (λ _ w'.
            (w'.comm ≡ xpmem_main_comm env (bufsize / bs) w.comm)
            × (is_sender env ≡ false
                → (o : ℕ) → o < bufsize / bs * bs
                → w'.lbuf.cell (env.heap_base + o) ≡ env.peer.cell (env.peer.base + o)))
          (nocache_main env 3 bs bufsize w)
  unfolding nocache_main
  xpmem_nocache_main-runs more = elim (Bool-cases (is_sender env)) [
    | inl s ↦
        Returns.mono
          (start-sender env bufsize bs w pos some_bytes int_range works _ true s (
            rw
              (nocache_loop-eq env blocks count 110 0 no_page
                (sending env bufsize bs w pos some_bytes int_range works))
              (Returns.mono (nocache_loop-sender env blocks s count 110 0 no_page _)
                λ o w' idle. idle.0)))
          λ _ w' calls. (calls, λ r. absurd (cc))
    | inr r ↦
        let (blocks_of, shape) = source r in
        Returns.mono
          (start-receiver env bufsize bs w pos some_bytes int_range works blocks_of r whole inside _
            true
            (rw
              (nocache_loop-eq env blocks count 110 0 no_page
                (receiving env bufsize bs w pos some_bytes int_range works))
              (nocache_loop-Ends env bs blocks blocks_of shape r env.heap_base bufsize inside whole
                count more _ refl refl)))
          λ _ w' (calls, bytes). (calls, λ _. bytes)
  ]
