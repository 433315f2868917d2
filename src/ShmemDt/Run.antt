-- ===== src/ShmemDt/Run.antt =====
-- The program of src/shmem_dt.c from its first call to its last, at the sender and at a receiver.
use mpidt_benchmark.Base.{
  ℕ, suc, ◌+◌, ◌*◌, ◌/◌, ◌%◌, ◌<◌, ◌≡◌, refl, ap, arith, List, ◌∷◌, true, false, some, lt→ltb,
  repeat_append, Bool-cases, inl, inr,
}
use mpidt_benchmark.Memory.{Region, ok}
use mpidt_benchmark.World.{
  Env, World, Comm, Event, alloc, mmap, ftruncate, shm_open, init, barrier, finalize, is_sender,
  memalign_lbuf,
}
use mpidt_benchmark.World.Returns
use mpidt_benchmark.World.Returns.{Returns, returns, for-Returns}
use mpidt_benchmark.Shmem.{
  num_iter, skip_iter, shmem_iteration, sender_copy, receiver_copy, new_dummybuf, free_dummybuf,
}
use mpidt_benchmark.Shmem
use mpidt_benchmark.Shmem.Copy.{Fits, whole_iovec, divide-ok}
use mpidt_benchmark.Shmem.Iteration.{
  iteration_comm, Published, Delivered, sender_body, receiver_body,
}
use mpidt_benchmark.Shmem.Run.{filled, fill_lbuf-ok, start-Progress}
use mpidt_benchmark.ShmemDt.{
  copy_to_shmem, copy_from_shmem, send, receive, iteration, backed_bytes, map_shared, main,
}

-- An iteration of the program shmem_dt, with its copy functions, equals one of benchmark_shmem.
pub iteration-eq : (env : Env) → iteration env ≡ shmem_iteration env
unfolding iteration shmem_iteration send receive sender_copy receiver_copy copy_to_shmem
    copy_from_shmem Shmem.copy_to_shmem Shmem.copy_from_shmem
iteration-eq env = refl

map_shared-ok :
    (env : Env) (base bufsize : ℕ) (w : World)
    → env.opened ≡ true
    → env.truncated ≡ true
    → env.mapped ≡ some base
    → (l : List Event) × (map_shared env bufsize w
        ≡ ok (
          tt,
          record w { shmem = record { base = base; size = bufsize; cell = env.garbage }; log = l },
        ))
unfolding map_shared backed_bytes
map_shared-ok env base bufsize w o t m =
    (mmap bufsize ∷ ftruncate bufsize ∷ shm_open ∷ w.log, simp (o, t, m) refl)

-- The buffer that posix_memalign returns, and the mapped file.
abbrev pub new_lbuf : Env → ℕ → Region
new_lbuf env n = record { base = env.heap_base; size = n; cell = env.garbage }

abbrev pub new_shmem : Env → ℕ → ℕ → Region
new_shmem env base n = record { base = base; size = n; cell = env.garbage }

-- The collective calls of the program, newest first.
abbrev pub main_comm : Env → List Comm → List Comm
main_comm env c =
    finalize
    ∷ barrier
    ∷ repeat_append (num_iter + skip_iter) (iteration_comm env) (barrier ∷ init ∷ c)

module _ (env : Env) (base bufsize bs : ℕ) (w : World)
    (f : Fits (new_lbuf env bufsize) (new_shmem env base bufsize) bufsize bs)
    (opened : env.opened ≡ true) (truncated : env.truncated ≡ true)
    (mapped : env.mapped ≡ some base) (some_bytes : 0 < bufsize) (exact : bufsize % bs ≡ 0) where
  abbrev lbuf : Region
  lbuf = filled env (new_lbuf env bufsize) bufsize

  abbrev shmem : Region
  shmem = new_shmem env base bufsize

  fits : Fits lbuf shmem bufsize bs
  fits = omega arith

  -- The state in front of the call of memset, and of open.
  abbrev allocated : World
  allocated = record w {
    lbuf = new_lbuf env bufsize;
    blocks = suc (suc w.blocks);
    comm = init ∷ w.comm;
    log = alloc (suc w.blocks) bufsize ∷ alloc w.blocks bufsize ∷ w.log;
  }

  abbrev with_iovec : World
  with_iovec = record allocated {
    lbuf = lbuf;
    blocks = suc (suc (suc w.blocks));
    log = alloc (suc (suc w.blocks)) (16 * (bufsize / bs)) ∷ allocated.log;
  }

  c0 : List Comm
  c0 = barrier ∷ init ∷ w.comm

  main-sender :
      is_sender env ≡ true
      → Returns (λ _ w'. w'.comm ≡ main_comm env w.comm) (main env 3 bs bufsize w)
  unfolding main memalign_lbuf new_dummybuf free_dummybuf c0
  main-sender s =
      let (l, m) = map_shared-ok env base bufsize with_iovec opened truncated mapped in
      let w2 = record with_iovec {
        shmem = shmem;
        blocks = suc (suc (suc (suc w.blocks)));
        comm = c0;
        log = alloc (suc (suc (suc w.blocks))) env.size ∷ l;
      } in
      let loop =
        for-Returns (Published env lbuf shmem bufsize c0) (num_iter + skip_iter)
          (shmem_iteration env (whole_iovec env.heap_base bufsize bs) bufsize bs)
          (sender_body env lbuf shmem fits exact c0 s) (num_iter + skip_iter) 0 refl w2
          (start-Progress env lbuf w2 refl refl, refl, λ h. absurd (omega arith)) in
      rw
        (
          s,
          divide-ok bufsize bs f.positive,
          lt→ltb 0 bs f.positive,
          lt→ltb 0 bufsize some_bytes,
          fill_lbuf-ok env bufsize allocated (omega arith),
          m,
          iteration-eq env,
        )
        (Returns.bind loop λ _ w' (p, same, shown). elim (Bool-cases env.opened) [
          | inl o ↦ rw o (returns (ap (λ (c : List Comm). finalize ∷ barrier ∷ c) p.called))
          | inr o ↦ rw o (returns (ap (λ (c : List Comm). finalize ∷ barrier ∷ c) p.called))
        ])

  main-receiver :
      is_sender env ≡ false
      → Returns (λ _ w'. w'.comm ≡ main_comm env w.comm) (main env 3 bs bufsize w)
  unfolding main memalign_lbuf new_dummybuf free_dummybuf c0
  main-receiver r =
      let (l, m) = map_shared-ok env base bufsize with_iovec opened truncated mapped in
      let w2 = record with_iovec { shmem = shmem; comm = c0; log = l } in
      let loop =
        for-Returns (Delivered env lbuf shmem fits exact c0 w.bcasts) (num_iter + skip_iter)
          (shmem_iteration env (whole_iovec env.heap_base bufsize bs) bufsize bs)
          (receiver_body env lbuf shmem fits exact c0 w.bcasts r) (num_iter + skip_iter) 0 refl w2
          (start-Progress env lbuf w2 refl refl, omega arith, λ h. absurd (omega arith)) in
      rw
        (
          r,
          divide-ok bufsize bs f.positive,
          lt→ltb 0 bs f.positive,
          lt→ltb 0 bufsize some_bytes,
          fill_lbuf-ok env bufsize allocated (omega arith),
          m,
          iteration-eq env,
        )
        (Returns.bind loop λ _ w' (p, count, got). elim (Bool-cases env.opened) [
          | inl o ↦ rw o (returns (ap (λ (c : List Comm). finalize ∷ barrier ∷ c) p.called))
          | inr o ↦ rw o (returns (ap (λ (c : List Comm). finalize ∷ barrier ∷ c) p.called))
        ])

  -- Under the bounds of Fits, for two arguments, a positive block size that divides a buffer size
  -- of at least one byte, and a file that could be opened, extended and mapped, the program shmem_dt runs to its end at
  -- every process, the sender and the receivers: without error, access outside of a buffer or failed
  -- assertion, and with the same collective calls, those of `main_comm`.
  pub main-runs : Returns (λ _ w'. w'.comm ≡ main_comm env w.comm) (main env 3 bs bufsize w)
  main-runs = elim (Bool-cases (is_sender env)) [ inl s ↦ main-sender s | inr r ↦ main-receiver r ]
