-- ===== src/Xpmem/Run.antt =====
-- Whole runs of benchmark_xpmem_nocache and benchmark_xpmem_cached in src/bench.c, at every process.
use mpidt_benchmark.Base.{
  ℕ, suc, ◌+◌, ◌*◌, ◌/◌, ◌^◌, ◌≤◌, ◌<◌, ◌≡◌, refl, ap, arith, true, false, List, [], ◌∷◌,
  repeat_append, Bool-cases, inl, inr,
}
use mpidt_benchmark.Word.{narrow-id}
use mpidt_benchmark.Memory.{Region}
use mpidt_benchmark.World.{
  Env, World, Comm, Event, M, bcast, barrier, alloc, seg_make, is_sender, mpi_bcast,
}
use mpidt_benchmark.World.Returns
use mpidt_benchmark.World.Returns.{Returns, returns}
use mpidt_benchmark.Shmem.{num_iter, skip_iter, new_dummybuf, free_dummybuf}
use mpidt_benchmark.Shmem.Copy.{divide-ok}
use mpidt_benchmark.Shmem.Run.{filled, fill_lbuf-ok}
use mpidt_benchmark.Cma.{iovec_bytes}
use mpidt_benchmark.Cma.Iteration.{cma_comm}
use mpidt_benchmark.Xpmem.{
  Outcome, no_page, release_apid, run_xpmem, benchmark_xpmem_nocache, benchmark_xpmem_cached,
}
use mpidt_benchmark.Xpmem.Attach.{IsSource}
use mpidt_benchmark.Xpmem.Loops.{Called, HasBytes, nocache_loop-sender}
use mpidt_benchmark.Xpmem.Loops.Cached.{cached_loop-sender}
use mpidt_benchmark.Xpmem.Shapes.{IsShape, nocache_loop-Ends, cached_loop-Ends}

-- The collective calls of a run, newest first.
abbrev pub xpmem_comm : Env → ℕ → List Comm → List Comm
xpmem_comm env n c =
    barrier
    ∷ repeat_append (num_iter + skip_iter) (cma_comm env n) (bcast env.sender env.segid_bytes ∷ c)

-- What a run leaves: its calls, the local buffer in its place, and at a receiver the sender's bytes.
pub record IsDone (env : Env) (total n : ℕ) (w w' : World) : Type 0 where
  pub called : w'.comm ≡ xpmem_comm env n w.comm
  pub base : w'.lbuf.base ≡ w.lbuf.base
  pub size : w'.lbuf.size ≡ w.lbuf.size
  pub got :
      is_sender env ≡ false
      → (o : ℕ) → o < total
      → w'.lbuf.cell (w.lbuf.base + o) ≡ env.peer.cell (env.peer.base + o)

module _ (env : Env) (bufsize bs : ℕ) (w : World) (pos : 0 < bs) (int_range : bufsize < 2 ^ 31)
    (works : env.xpmem_works ≡ true) (all : bufsize ≤ w.lbuf.size) where
  abbrev n : ℕ
  n = bufsize / bs

  fewer : n < 2 ^ 31
  fewer = let le : n ≤ bufsize = grind arith in omega arith

  -- The world in front of the loop.
  abbrev sending : World
  sending = record w {
    lbuf = filled env w.lbuf bufsize;
    bcasts = suc w.bcasts;
    blocks = suc (suc w.blocks);
    comm = bcast env.sender env.segid_bytes ∷ w.comm;
    log = alloc (suc w.blocks) (8 * n) ∷ alloc w.blocks env.size ∷ seg_make ∷ w.log;
  }

  abbrev receiving : World
  receiving = record w {
    lbuf = filled env w.lbuf bufsize;
    shmem = record w.shmem { cell = env.shared w.bcasts };
    bcasts = suc w.bcasts;
    blocks = suc w.blocks;
    comm = bcast env.sender env.segid_bytes ∷ w.comm;
    log = alloc w.blocks (8 * n) ∷ w.log;
  }

  sent :
      (total : ℕ) (w' : World)
      → is_sender env ≡ true
      → w'.comm ≡ repeat_append (num_iter + skip_iter) (cma_comm env n) sending.comm
      → w'.lbuf ≡ sending.lbuf
      → (l : List Event) → IsDone env total n w (record w' { comm = barrier ∷ w'.comm; log = l })
  sent total w' s called same l = record {
    called = ap (λ (calls : List Comm). barrier ∷ calls) called;
    base = ap (λ (d : Region). d.base) same;
    size = ap (λ (d : Region). d.size) same;
    got = λ r. absurd (cc);
  }

  run_xpmem-sender :
      (loop : ℕ → M Outcome) (total : ℕ)
      → is_sender env ≡ true
      → Returns
          (λ o w'. Called env n (num_iter + skip_iter) sending.comm o w' × (w'.lbuf ≡ sending.lbuf))
          (loop n sending)
      → Returns (λ _ w'. IsDone env total n w w') (run_xpmem env loop bufsize bs w)
  unfolding run_xpmem new_dummybuf free_dummybuf mpi_bcast release_apid
  run_xpmem-sender loop total s ends =
      let w0 : World = record w {
        blocks = suc w.blocks;
        log = alloc w.blocks env.size ∷ seg_make ∷ w.log;
      } in
      rw (divide-ok bufsize bs pos, narrow-id n fewer)
        (simp works (
          rw (s, fill_lbuf-ok env bufsize w0 all)
            (Returns.bind ends λ o w' ((done, called), same).
              rw done (elim (Bool-cases env.junk_apid) [
                | inl set ↦ simp set (returns (sent total w' s called same _))
                | inr unset ↦ simp unset (returns (sent total w' s called same _))
              ]))))

  module _ (source : IsSource env bs n) (r : is_sender env ≡ false) (room : n * bs ≤ w.lbuf.size)
      (fits : w.lbuf.base + n * bs < 2 ^ 64) where
    run_xpmem-receiver :
        (loop : ℕ → M Outcome)
        → Returns
            (λ o w'.
              Called env n (num_iter + skip_iter) receiving.comm o w'
              × HasBytes env bs n source r w.lbuf.base w.lbuf.size fits room w')
            (loop n receiving)
        → Returns (λ _ w'. IsDone env (n * bs) n w w') (run_xpmem env loop bufsize bs w)
    unfolding run_xpmem new_dummybuf free_dummybuf mpi_bcast release_apid
    run_xpmem-receiver loop ends =
        rw (divide-ok bufsize bs pos, narrow-id n fewer)
          (simp works (
            rw (r, fill_lbuf-ok env bufsize w all)
              (Returns.bind ends λ o w' ((done, called), bytes). rw done (
                returns (record {
                  called = ap (λ (calls : List Comm). barrier ∷ calls) called;
                  base = bytes.base;
                  size = bytes.same_size;
                  got = λ _. bytes.got;
                })))))

-- What a receiver needs: the sender's blocks, and room for them that does not wrap.
module _ (env : Env) (bufsize bs : ℕ) (w : World) (int_range : bufsize < 2 ^ 31)
    (all : bufsize ≤ w.lbuf.size) (fits : w.lbuf.base + bufsize < 2 ^ 64)
    (works : env.xpmem_works ≡ true) (pos : 0 < bs)
    (count : bufsize / bs * iovec_bytes < 2 ^ 31) where
  abbrev blocks : ℕ
  blocks = bufsize / bs

  whole : blocks * bs ≤ bufsize
  whole = grind arith

  cached-receiver :
      (source : IsSource env bs blocks)
      → IsShape env bs blocks
      → (r : is_sender env ≡ false)
      → Returns
          (λ _ w'. IsDone env (blocks * bs) blocks w w')
          (benchmark_xpmem_cached env bufsize bs w)
  unfolding benchmark_xpmem_cached
  cached-receiver source shape r =
      let room : blocks * bs ≤ w.lbuf.size = omega (arith, whole) in
      let inside : w.lbuf.base + blocks * bs < 2 ^ 64 = omega (arith, whole) in
      run_xpmem-receiver env bufsize bs w pos int_range works all source r room inside _ (
        cached_loop-Ends env bs blocks source shape r w.lbuf.base w.lbuf.size inside room count _
          refl refl)

  nocache-receiver :
      (source : IsSource env bs blocks)
      → IsShape env bs blocks
      → (bs < env.page_size → env.page_size < blocks * bs)
      → (r : is_sender env ≡ false)
      → Returns
          (λ _ w'. IsDone env (blocks * bs) blocks w w')
          (benchmark_xpmem_nocache env bufsize bs w)
  unfolding benchmark_xpmem_nocache
  nocache-receiver source shape more r =
      let room : blocks * bs ≤ w.lbuf.size = omega (arith, whole) in
      let inside : w.lbuf.base + blocks * bs < 2 ^ 64 = omega (arith, whole) in
      run_xpmem-receiver env bufsize bs w pos int_range works all source r room inside _ (
        nocache_loop-Ends env bs blocks source shape r w.lbuf.base w.lbuf.size inside room count
          more _ refl refl)

-- For every process, with an XPMEM driver that works, buffers that hold all the bytes, and an array
-- whose bytes an int counts: where the blocks of the sender's array can be attached, and are of at least a page or inside of pages, a run
-- of benchmark_xpmem_cached ends without error, after the same collective calls at the sender and at
-- the receivers: a broadcast of the segment's number, a broadcast and a gather in each of the 110
-- iterations, and a barrier. The local buffer is where it was, and at a receiver it has the bytes of
-- all the sender's whole blocks.
pub benchmark_xpmem_cached-runs :
    (env : Env) (bufsize bs : ℕ) (w : World)
    → 0 < bs
    → bufsize < 2 ^ 31
    → bufsize ≤ w.lbuf.size
    → w.lbuf.base + bufsize < 2 ^ 64
    → env.xpmem_works ≡ true
    → bufsize / bs * iovec_bytes < 2 ^ 31
    → (is_sender env ≡ false → IsSource env bs (bufsize / bs) × IsShape env bs (bufsize / bs))
    → Returns
        (λ _ w'. IsDone env (bufsize / bs * bs) (bufsize / bs) w w')
        (benchmark_xpmem_cached env bufsize bs w)
unfolding benchmark_xpmem_cached
benchmark_xpmem_cached-runs env bufsize bs w pos int_range all fits works count source =
    elim (Bool-cases (is_sender env)) [
      | inl s ↦
          run_xpmem-sender env bufsize bs w pos int_range works all _ (bufsize / bs * bs) s
            (cached_loop-sender env (bufsize / bs) s count 110 0 [] no_page _)
      | inr r ↦
          cached-receiver env bufsize bs w int_range all fits works pos count (source r).0
            (source r).1 r
    ]

-- For every process, with an XPMEM driver that works, buffers that hold all the bytes, and an array
-- whose bytes an int counts: where the blocks of the sender's array can be attached, and are of at least a page, or inside of pages and
-- together of more than one page, a run of benchmark_xpmem_nocache ends without error, after the
-- same collective calls at the sender and at the receivers: a broadcast of the segment's number, a
-- broadcast and a gather in each of the 110 iterations, and a barrier. The local buffer is where it
-- was, and at a receiver it has the bytes of all the sender's whole blocks.
pub benchmark_xpmem_nocache-runs :
    (env : Env) (bufsize bs : ℕ) (w : World)
    → 0 < bs
    → bufsize < 2 ^ 31
    → bufsize ≤ w.lbuf.size
    → w.lbuf.base + bufsize < 2 ^ 64
    → env.xpmem_works ≡ true
    → bufsize / bs * iovec_bytes < 2 ^ 31
    → (is_sender env ≡ false → IsSource env bs (bufsize / bs) × IsShape env bs (bufsize / bs))
    → (bs < env.page_size → env.page_size < bufsize / bs * bs)
    → Returns
        (λ _ w'. IsDone env (bufsize / bs * bs) (bufsize / bs) w w')
        (benchmark_xpmem_nocache env bufsize bs w)
unfolding benchmark_xpmem_nocache
benchmark_xpmem_nocache-runs env bufsize bs w pos int_range all fits works count source more =
    elim (Bool-cases (is_sender env)) [
      | inl s ↦
          run_xpmem-sender env bufsize bs w pos int_range works all _ (bufsize / bs * bs) s
            (nocache_loop-sender env (bufsize / bs) s count 110 0 no_page _)
      | inr r ↦
          nocache-receiver env bufsize bs w int_range all fits works pos count (source r).0
            (source r).1 more r
    ]
