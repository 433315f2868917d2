-- ===== src/Bench/Phases.antt =====
-- The benchmarks of src/bench.c, as main runs them one behind the other, at every process.
use mpidt_benchmark.Base.{
  ℕ, suc, ◌+◌, ◌*◌, ◌/◌, ◌%◌, ◌^◌, ◌≤◌, ◌<◌, ◌≡◌, ◌⊎◌, refl, sym, ap, ◌∙◌, arith, true, false, some,
  List, [], ◌∷◌, zero, repeat_append, Bool-cases, inl, inr, mul_mono,
}
use mpidt_benchmark.Memory.{SamePlace}
use mpidt_benchmark.Iovec.{Iovec}
use mpidt_benchmark.World.{Env, World, Comm, barrier, bcast, gather, is_sender}
use mpidt_benchmark.World.Returns
use mpidt_benchmark.World.Returns.{Returns, returns}
use mpidt_benchmark.Shmem.{num_iter, skip_iter, benchmark_shmem}
use mpidt_benchmark.Shmem.Copy.{Fits, whole_iovec}
use mpidt_benchmark.Shmem.Run.{
  run_comm, benchmark_shmem-sender_places, benchmark_shmem-receiver_places,
}
use mpidt_benchmark.Pipeline.{benchmark_shmem_pip, pipeline_depth}
use mpidt_benchmark.Pipeline.Round.{pip_comm, exact_pieces}
use mpidt_benchmark.Pipeline.Bench.{
  benchmark_shmem_pip-sender_places, benchmark_shmem_pip-receiver_places,
}
use mpidt_benchmark.Cma.{Readv, iovec_bytes, benchmark_cma}
use mpidt_benchmark.Cma.Read.{ReadsBlocks}
use mpidt_benchmark.Cma.Iteration.{Reads, cma_run_comm}
use mpidt_benchmark.Cma.Run.{benchmark_cma-sender_places, benchmark_cma-receiver_places}
use mpidt_benchmark.Xpmem.{benchmark_xpmem_nocache, benchmark_xpmem_cached}
use mpidt_benchmark.Xpmem.Attach.{IsSource}
use mpidt_benchmark.Xpmem.Shapes.{IsShape, by_block, by_page}
use mpidt_benchmark.Xpmem.Run.{
  IsDone, xpmem_comm, benchmark_xpmem_nocache-runs, benchmark_xpmem_cached-runs,
}

-- What a process is given, whatever the block size: the calls of the system succeed, the buffers
-- lie where addresses do not wrap, the size of the buffer is a positive multiple of the pipeline's
-- depth, and a receiver sees in the shared region what the sender stores there, an 'x' everywhere.
pub record IsSystem (env : Env) (bufsize lb shm_base : ℕ) : Type 0 where
  pub opened : env.opened ≡ true
  pub truncated : env.truncated ≡ true
  pub mapped : env.mapped ≡ some shm_base
  pub some_bytes : 0 < bufsize
  pub int_range : bufsize < 2 ^ 31
  pub pieces : bufsize % pipeline_depth ≡ 0
  pub lbuf_end : lb + bufsize < 2 ^ 64
  pub shmem_end : shm_base + bufsize < 2 ^ 64
  pub peer_room : bufsize ≤ env.peer.size
  pub peer_end : env.peer.base + bufsize < 2 ^ 64
  pub shown : is_sender env ≡ false → (b o : ℕ) → o < bufsize → env.shared b (shm_base + o) ≡ b'x'
  pub some_limit : 0 < env.iov_limit
  pub works : env.xpmem_works ≡ true
  pub attaches : (a : ℕ) → env.attached a ≡ true

-- What one block size needs: it divides the buffer size, an int counts the bytes of the array, the
-- sender's array has arrived, and the
-- kernel and XPMEM transfer its blocks.
pub record IsSize (env : Env) (read : Readv) (iov : List Iovec) (bufsize lb bs : ℕ) : Type 0 where
  pub positive : 0 < bs
  pub exact : bufsize % bs ≡ 0
  pub count : bufsize / bs * iovec_bytes < 2 ^ 31
  pub arrived : iov ≡ whole_iovec env.peer.base bufsize bs
  pub transfers : ReadsBlocks read env.iov_limit lb env.peer.base bs (bufsize / bs * bs) env.peer
  pub few : (bufsize / bs < env.iov_limit) ⊎ (bufsize / bs % env.iov_limit ≡ 0)
  pub shape : IsShape env bs (bufsize / bs)
  pub more : bs < env.page_size → env.page_size < bufsize

-- The local buffer as main has allocated it.
pub record HasLbuf (lb bufsize : ℕ) (w : World) : Type 0 where
  pub base : w.lbuf.base ≡ lb
  pub size : w.lbuf.size ≡ bufsize

pub record HasShmem (shm_base bufsize : ℕ) (w : World) : Type 0 where
  pub base : w.shmem.base ≡ shm_base
  pub size : w.shmem.size ≡ bufsize

HasShmem-SamePlace :
    (shm_base bufsize : ℕ) {w w' : World}
    → SamePlace w.shmem w'.shmem
    → HasShmem shm_base bufsize w
    → HasShmem shm_base bufsize w'
HasShmem-SamePlace shm_base bufsize s h = record { base = s.base ∙ h.base; size = s.size ∙ h.size }

module _ (env : Env) (read : Readv) (iov : List Iovec) (bufsize bs lb shm_base : ℕ)
    (sys : IsSystem env bufsize lb shm_base) (size : IsSize env read iov bufsize lb bs) where
  -- The process with the sender's array.
  abbrev here : Env
  here = record env { peer_iov = iov }

  abbrev liov : List Iovec
  liov = whole_iovec lb bufsize bs

  Fits-here :
      (w : World)
      → HasLbuf lb bufsize w
      → HasShmem shm_base bufsize w
      → Fits w.lbuf w.shmem bufsize bs
  Fits-here w l m = record {
    positive = size.positive;
    int_range = sys.int_range;
    lbuf_room = omega (arith, l.size);
    shmem_room = omega (arith, m.size);
    lbuf_end = omega (arith, l.base, sys.lbuf_end);
    shmem_end = omega (arith, m.base, sys.shmem_end);
  }

  pub shmem_phase :
      (w : World)
      → HasLbuf lb bufsize w
      → HasShmem shm_base bufsize w
      → Returns
          (λ _ w'.
            HasLbuf lb bufsize w' × HasShmem shm_base bufsize w' × (w'.comm ≡ run_comm env w.comm))
          (benchmark_shmem here liov bufsize bs w)
  shmem_phase w l m =
      let f = Fits-here w l m in
      rw (← l.base) (elim (Bool-cases (is_sender env)) [
        | inl s ↦
            Returns.mono (benchmark_shmem-sender_places here bufsize bs w f s size.exact)
              λ _ w' (a, b, calls, _). (
                record { base = a.base; size = a.size ∙ l.size },
                HasShmem-SamePlace shm_base bufsize b m,
                calls,
              )
        | inr r ↦
            Returns.mono (benchmark_shmem-receiver_places here bufsize bs w f r size.exact)
              λ _ w' (a, b, calls, _). (
                record { base = a.base; size = a.size ∙ l.size },
                HasShmem-SamePlace shm_base bufsize b m,
                calls,
              )
      ])

  within_pieces :
      (k o : ℕ) → k < bufsize / pipeline_depth → o < 0 + suc k * pipeline_depth → o < bufsize
  within_pieces k o lk lo =
      let all = exact_pieces bufsize pipeline_depth sys.pieces in
      let upto = mul_mono (suc k) (bufsize / pipeline_depth) pipeline_depth (omega arith) in
      omega arith

  -- The array does not matter to the calls.
  same_calls : (m i : ℕ) (c : List Comm) → pip_comm here m i c ≡ pip_comm env m i c
  unfolding pip_comm
  same_calls m zero c = refl
  same_calls m (suc i) c =
      ap (λ (l : List Comm). gather env.sender 1 ∷ repeat_append m (bcast env.sender 1 ∷ []) l)
        (same_calls m i c)

  pub pip_phase :
      (w : World)
      → HasLbuf lb bufsize w
      → HasShmem shm_base bufsize w
      → Returns
          (λ _ w'.
            HasLbuf lb bufsize w'
            × (w'.comm
                ≡ barrier ∷ pip_comm env (bufsize / pipeline_depth) (num_iter + skip_iter) w.comm))
          (benchmark_shmem_pip here liov bufsize bs w)
  pip_phase w l m =
      let f = Fits-here w l m in
      rw (← l.base) (elim (Bool-cases (is_sender env)) [
        | inl s ↦
            Returns.mono
              (benchmark_shmem_pip-sender_places here bufsize bs w f s size.exact sys.pieces)
              λ _ w' (a, b, calls, _). (
                record { base = a.base; size = a.size ∙ l.size },
                calls ∙ ap (λ (c : List Comm). barrier ∷ c) (same_calls _ _ _),
              )
        | inr r ↦
            Returns.mono
              (benchmark_shmem_pip-receiver_places here bufsize bs w f (λ o. b'x') r size.exact
                sys.pieces
                λ i k o lk lo.
                  ap (λ (a : ℕ). env.shared (w.bcasts + i * (bufsize / pipeline_depth) + k) (a + o))
                    m.base
                  ∙ sys.shown r _ o (within_pieces k o lk lo))
              λ _ w' (a, b, calls, _). (
                record { base = a.base; size = a.size ∙ l.size },
                calls ∙ ap (λ (c : List Comm). barrier ∷ c) (same_calls _ _ _),
              )
      ])

  pub cma_phase :
      (w : World)
      → HasLbuf lb bufsize w
      → Returns
          (λ _ w'. HasLbuf lb bufsize w' × (w'.comm ≡ cma_run_comm env (bufsize / bs) w.comm))
          (benchmark_cma here read liov bufsize bs w)
  cma_phase w l =
      let f : Fits w.lbuf env.peer bufsize bs = record {
        positive = size.positive;
        int_range = sys.int_range;
        lbuf_room = omega (arith, l.size);
        shmem_room = sys.peer_room;
        lbuf_end = omega (arith, l.base, sys.lbuf_end);
        shmem_end = sys.peer_end;
      } in
      let reads : Reads here read w.lbuf.base bufsize bs = record {
        count = size.count;
        some_limit = sys.some_limit;
        arrived = size.arrived;
        transfers = rw l.base size.transfers;
      } in
      rw (← l.base) (elim (Bool-cases (is_sender env)) [
        | inl s ↦
            Returns.mono (benchmark_cma-sender_places here read bufsize bs w f reads size.exact s)
              λ _ w' (a, calls). (record { base = a.base; size = a.size ∙ l.size }, calls)
        | inr r ↦
            Returns.mono
              (benchmark_cma-receiver_places here read bufsize bs w f reads size.exact r
                sys.some_bytes size.few)
              λ _ w' (a, calls, _). (record { base = a.base; size = a.size ∙ l.size }, calls)
      ])

  all_blocks : bufsize / bs * bs ≡ bufsize
  all_blocks = exact_pieces bufsize bs size.exact

  source : IsSource here bs (bufsize / bs)
  source = record {
    entries = size.arrived;
    positive = size.positive;
    readable = omega (arith, sys.peer_room, all_blocks);
    end = omega (arith, sys.peer_end, all_blocks);
    int_range = omega (arith, sys.int_range, all_blocks);
    works = sys.attaches;
  }

  shape : IsShape here bs (bufsize / bs)
  shape = elim size.shape [
    | by_block large ↦ by_block large
    | by_page pages ↦ by_page (record {
      aligned = pages.aligned;
      not_null = pages.not_null;
      small = pages.small;
      inside = pages.inside;
    })
  ]

  placed :
      (w : World) (w' : World)
      → HasLbuf lb bufsize w
      → IsDone here (bufsize / bs * bs) (bufsize / bs) w w'
      → HasLbuf lb bufsize w' × (w'.comm ≡ xpmem_comm env (bufsize / bs) w.comm)
  placed w w' l done =
      (record { base = done.base ∙ l.base; size = done.size ∙ l.size }, done.called)

  pub nocache_phase :
      (w : World)
      → HasLbuf lb bufsize w
      → Returns
          (λ _ w'. HasLbuf lb bufsize w' × (w'.comm ≡ xpmem_comm env (bufsize / bs) w.comm))
          (benchmark_xpmem_nocache here bufsize bs w)
  nocache_phase w l =
      Returns.mono
        (benchmark_xpmem_nocache-runs here bufsize bs w size.positive sys.int_range
          (omega (arith, l.size)) (omega (arith, l.base, sys.lbuf_end)) sys.works size.count
          (λ _. (source, shape)) (λ h. omega (arith, all_blocks, size.more h)))
        (λ _ w' done. placed w w' l done)

  -- At a receiver the local buffer ends with the sender's bytes.
  pub cached_phase :
      (w : World)
      → HasLbuf lb bufsize w
      → Returns
          (λ _ w'.
            HasLbuf lb bufsize w'
            × (w'.comm ≡ xpmem_comm env (bufsize / bs) w.comm)
            × (is_sender env ≡ false
                → (o : ℕ) → o < bufsize
                → w'.lbuf.cell (lb + o) ≡ env.peer.cell (env.peer.base + o)))
          (benchmark_xpmem_cached here bufsize bs w)
  cached_phase w l =
      Returns.mono
        (benchmark_xpmem_cached-runs here bufsize bs w size.positive sys.int_range
          (omega (arith, l.size)) (omega (arith, l.base, sys.lbuf_end)) sys.works size.count
          (λ _. (source, shape)))
        (λ _ w' done.
          let (l', calls) = placed w w' l done in
          (
            l',
            calls,
            λ r o h.
                ap (λ (a : ℕ). w'.lbuf.cell (a + o)) (sym l.base)
                ∙ done.got r o (omega (arith, all_blocks)),
          ))
