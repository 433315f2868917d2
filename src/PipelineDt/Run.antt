-- ===== src/PipelineDt/Run.antt =====
-- Whole runs of the program of src/shmem_pipeline_dt.c, at the sender and at a receiver.
use mpidt_benchmark.Base.{
  ℕ, suc, ◌+◌, ◌*◌, ◌/◌, ◌%◌, ◌<◌, ◌≡◌, refl, ap, arith, List, ◌∷◌, true, false, some, Bool-cases,
  inl, inr, lt→ltb,
}
use mpidt_benchmark.Memory.{Region, ok}
use mpidt_benchmark.World.{
  Env, World, Comm, Event, init, barrier, finalize, alloc, is_sender, memalign_lbuf, shm_open,
  ftruncate, mmap,
}
use mpidt_benchmark.World.Returns
use mpidt_benchmark.World.Returns.{Returns, returns, for-Returns}
use mpidt_benchmark.Shmem.{num_iter, skip_iter, new_dummybuf, free_dummybuf}
use mpidt_benchmark.Shmem.Copy.{Fits, whole_iovec, divide-ok}
use mpidt_benchmark.Shmem.Run.{filled, fill_lbuf-ok}
use mpidt_benchmark.ShmemDt.Run.{new_lbuf, new_shmem}
use mpidt_benchmark.Pipeline.{pipeline_depth}
use mpidt_benchmark.Pipeline.Send.{IsDepth}
use mpidt_benchmark.Pipeline.Receive.{Visible}
use mpidt_benchmark.Pipeline.Round.{pip_comm, Sender, Receiver, send_body, recv_body}
use mpidt_benchmark.ShmemDt.{backed_bytes}
use mpidt_benchmark.PipelineDt.{iteration, map_shared, run, main}
use mpidt_benchmark.PipelineDt.Iteration.{pipeline_iteration-eq}

map_shared-maps :
    (env : Env) (base bufsize : ℕ) (w : World)
    → env.opened ≡ true
    → env.truncated ≡ true
    → env.mapped ≡ some base
    → (l : List Event) × (map_shared env bufsize w
        ≡ ok (tt, record w { shmem = new_shmem env base bufsize; log = l }))
unfolding map_shared backed_bytes
map_shared-maps env base bufsize w o t m =
    (mmap bufsize ∷ ftruncate bufsize ∷ shm_open ∷ w.log, simp (o, t, m) refl)

depth : IsDepth pipeline_depth
depth = omega arith

-- The collective calls of the program, newest first.
abbrev pub pipeline_main_comm : Env → ℕ → List Comm → List Comm
pipeline_main_comm env bufsize c =
    finalize
    ∷ barrier
    ∷ pip_comm env (bufsize / pipeline_depth) (num_iter + skip_iter) (barrier ∷ init ∷ c)

module _ (env : Env) (base bufsize bs : ℕ) (w : World)
    (f : Fits (new_lbuf env bufsize) (new_shmem env base bufsize) bufsize bs)
    (opened : env.opened ≡ true) (truncated : env.truncated ≡ true)
    (mapped : env.mapped ≡ some base) (some_bytes : 0 < bufsize) (exact : bufsize % bs ≡ 0)
    (even : bufsize % pipeline_depth ≡ 0) where
  abbrev lbuf : Region
  lbuf = filled env (new_lbuf env bufsize) bufsize

  abbrev shmem : Region
  shmem = new_shmem env base bufsize

  fits : Fits lbuf shmem bufsize bs
  fits = omega arith

  -- The state in front of the call of memset, and of open.
  abbrev allocated : World
  allocated = record w {
    lbuf = new_lbuf env bufsize;
    blocks = suc (suc w.blocks);
    comm = init ∷ w.comm;
    log = alloc (suc w.blocks) bufsize ∷ alloc w.blocks bufsize ∷ w.log;
  }

  abbrev with_iovec : World
  with_iovec = record allocated {
    lbuf = lbuf;
    blocks = suc (suc (suc w.blocks));
    log = alloc (suc (suc w.blocks)) (16 * (bufsize / bs)) ∷ allocated.log;
  }

  abbrev with_dummybuf : World
  with_dummybuf = record with_iovec {
    blocks = suc with_iovec.blocks;
    log = alloc with_iovec.blocks env.size ∷ with_iovec.log;
  }

  c0 : List Comm
  c0 = barrier ∷ init ∷ w.comm

  -- Under the bounds of Fits, for two arguments, a positive block size and a pipeline depth that both
  -- divide a buffer size of at least one byte, and a file that could be opened, extended and mapped, the program
  -- shmem_pipeline_dt runs to its end at the sender, without error, access outside of a buffer or
  -- failed assertion; its collective calls are those of `pipeline_main_comm`.
  pub pipeline_main-sender :
      is_sender env ≡ true
      → Returns (λ _ w'. w'.comm ≡ pipeline_main_comm env bufsize w.comm) (main env 3 bs bufsize w)
  unfolding main run memalign_lbuf new_dummybuf free_dummybuf c0
  pipeline_main-sender s =
      let (l, m) = map_shared-maps env base bufsize with_dummybuf opened truncated mapped in
      let w2 = record with_dummybuf { shmem = shmem; comm = c0; log = l } in
      let start : Sender env lbuf shmem bufsize bs pipeline_depth fits depth exact c0 0 w2 =
        record {
          same = refl;
          sbase = refl;
          ssize = refl;
          called = unfold pip_comm in refl;
          shown = λ h. absurd (omega arith);
        } in
      let loop =
        for-Returns (Sender env lbuf shmem bufsize bs pipeline_depth fits depth exact c0)
          (num_iter + skip_iter)
          (iteration env (whole_iovec env.heap_base bufsize bs) (bufsize / bs) bufsize)
          (λ i w' lt inv.
            rw
              (pipeline_iteration-eq env (whole_iovec env.heap_base bufsize bs) bufsize bs i w'
                f.positive)
              (send_body env lbuf shmem bufsize bs pipeline_depth fits depth exact c0 s even i w' lt
                inv))
          (num_iter + skip_iter) 0 refl w2 start in
      rw
        (
          s,
          divide-ok bufsize bs f.positive,
          lt→ltb 0 bs f.positive,
          lt→ltb 0 bufsize some_bytes,
          fill_lbuf-ok env bufsize allocated (omega arith),
          m,
        )
        (Returns.bind loop λ _ w' inv. elim (Bool-cases env.opened) [
          | inl o ↦ simp o (returns (ap (λ (c : List Comm). finalize ∷ barrier ∷ c) inv.called))
          | inr o ↦ simp o (returns (ap (λ (c : List Comm). finalize ∷ barrier ∷ c) inv.called))
        ])

  -- Under the bounds of Fits, for two arguments, a positive block size and a pipeline depth that both
  -- divide a buffer size of at least one byte, a file that could be opened, extended and mapped, and where each broadcast
  -- of an iteration shows a receiver one more piece of `content`: the program shmem_pipeline_dt runs
  -- to its end at a receiver, without error and with the collective calls of `pipeline_main_comm`, as
  -- at the sender, and `content` is in its own buffer.
  pub pipeline_main-receiver :
      (content : ℕ → ℕ)
      → is_sender env ≡ false
      → ((i : ℕ)
          → Visible env content base pipeline_depth
              (w.bcasts + i * (bufsize / pipeline_depth))
              0
              (bufsize / pipeline_depth))
      → Returns
          (λ _ w'.
            (w'.comm ≡ pipeline_main_comm env bufsize w.comm)
            × ((o : ℕ) → o < bufsize → w'.lbuf.cell (env.heap_base + o) ≡ content o))
          (main env 3 bs bufsize w)
  unfolding main run memalign_lbuf new_dummybuf free_dummybuf c0
  pipeline_main-receiver content r feeds =
      let (l, m) = map_shared-maps env base bufsize with_iovec opened truncated mapped in
      let w2 = record with_iovec { shmem = shmem; comm = c0; log = l } in
      let start : Receiver env lbuf shmem bufsize bs pipeline_depth fits depth exact content c0
          w.bcasts 0 w2 =
        record {
          buffers = record { lbase = refl; lsize = refl; sbase = refl; ssize = refl };
          count = omega arith;
          called = unfold pip_comm in refl;
          got = λ h. absurd (omega arith);
        } in
      let loop =
        for-Returns
          (Receiver env lbuf shmem bufsize bs pipeline_depth fits depth exact content c0 w.bcasts)
          (num_iter + skip_iter)
          (iteration env (whole_iovec env.heap_base bufsize bs) (bufsize / bs) bufsize)
          (λ i w' lt inv.
            rw
              (pipeline_iteration-eq env (whole_iovec env.heap_base bufsize bs) bufsize bs i w'
                f.positive)
              (recv_body env lbuf shmem bufsize bs pipeline_depth fits depth exact content c0
                w.bcasts r even feeds i w' lt inv))
          (num_iter + skip_iter) 0 refl w2 start in
      rw
        (
          r,
          divide-ok bufsize bs f.positive,
          lt→ltb 0 bs f.positive,
          lt→ltb 0 bufsize some_bytes,
          fill_lbuf-ok env bufsize allocated (omega arith),
          m,
        )
        (Returns.bind loop λ _ w' inv. elim (Bool-cases env.opened) [
          | inl o ↦ simp o (
              returns
                (ap (λ (c : List Comm). finalize ∷ barrier ∷ c) inv.called, inv.got (omega arith)))
          | inr o ↦ simp o (
              returns
                (ap (λ (c : List Comm). finalize ∷ barrier ∷ c) inv.called, inv.got (omega arith)))
        ])

  -- Under the bounds of Fits, for two arguments, a positive block size and a pipeline depth that both
  -- divide a buffer size of at least one byte, a file that could be opened, extended and mapped, and where each broadcast
  -- of an iteration shows a receiver one more piece of `content`: the program shmem_pipeline_dt runs
  -- to its end at every process, without error, access outside of a buffer or failed assertion, and
  -- with the collective calls of `pipeline_main_comm`; a receiver has `content` in its own buffer.
  pub pipeline_main-runs :
      (content : ℕ → ℕ)
      → (is_sender env ≡ false
          → (i : ℕ)
          → Visible env content base pipeline_depth
              (w.bcasts + i * (bufsize / pipeline_depth))
              0
              (bufsize / pipeline_depth))
      → Returns
          (λ _ w'.
            (w'.comm ≡ pipeline_main_comm env bufsize w.comm)
            × (is_sender env ≡ false
                → (o : ℕ) → o < bufsize
                → w'.lbuf.cell (env.heap_base + o) ≡ content o))
          (main env 3 bs bufsize w)
  pipeline_main-runs content feeds = elim (Bool-cases (is_sender env)) [
    | inl s ↦ Returns.mono (pipeline_main-sender s) λ _ w' calls. (calls, λ r. absurd (cc))
    | inr r ↦
        Returns.mono (pipeline_main-receiver content r (feeds r))
          λ _ w' (calls, bytes). (calls, λ _. bytes)
  ]
