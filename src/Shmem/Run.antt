-- ===== src/Shmem/Run.antt =====
-- Whole runs of benchmark_shmem in src/bench.c, at the sender and at a receiver.
use mpidt_benchmark.Base.{
  ℕ, suc, ◌+◌, ◌%◌, ◌≤◌, ◌<◌, ◌≡◌, ◌≢◌, refl, ap, ◌∙◌, arith, List, ◌∷◌, true, false, repeat_append,
  leb, ltb, ◌&&◌, if◌then◌else◌,
}
use mpidt_benchmark.Memory.{Region, SamePlace, ok, err, assert_failed, memset}
use mpidt_benchmark.Memory.Blit.{within-true}
use mpidt_benchmark.World.{Env, World, Comm, barrier, is_sender, for, alloc}
use mpidt_benchmark.World.Returns.{Returns, returns, for-Returns}
use mpidt_benchmark.World.Returns
use mpidt_benchmark.Shmem.{
  num_iter, skip_iter, fill_lbuf, new_dummybuf, free_dummybuf, shmem_iteration, benchmark_shmem,
}
use mpidt_benchmark.Shmem.Copy.{Fits, whole_iovec}
use mpidt_benchmark.Shmem.Iteration.{
  iteration_comm, Progress, Published, Delivered, sender_body, receiver_body, sender_copy-err,
}

-- The local buffer after the benchmark's memset.
abbrev pub filled : Env → Region → ℕ → Region
filled env r n = record r {
  cell = λ a.
      if leb r.base a && ltb a (r.base + n) then (if is_sender env then b'x' else 0) else r.cell a;
}

pub fill_lbuf-ok :
    (env : Env) (bufsize : ℕ) (w : World)
    → bufsize ≤ w.lbuf.size
    → fill_lbuf env bufsize w ≡ ok (tt, record w { lbuf = filled env w.lbuf bufsize })
unfolding fill_lbuf memset
fill_lbuf-ok env bufsize w room =
    rw (within-true w.lbuf w.lbuf.base bufsize (omega arith) (omega arith))

-- The collective calls of a whole run, newest first.
abbrev pub run_comm : Env → List Comm → List Comm
run_comm env c = barrier ∷ repeat_append (num_iter + skip_iter) (iteration_comm env) c

pub start-Progress :
    (env : Env) (lbuf : Region) (w : World)
    → w.lbuf.base ≡ lbuf.base
    → w.lbuf.size ≡ lbuf.size
    → Progress env lbuf w.shmem w.comm 0 w
unfolding repeat_append
start-Progress env lbuf w b n = record {
  lbase = b;
  lsize = n;
  sbase = refl;
  ssize = refl;
  called = refl;
}

pub filled-sender :
    (env : Env) (r : Region) (n o : ℕ)
    → is_sender env ≡ true
    → o < n
    → (filled env r n).cell (r.base + o) ≡ b'x'
filled-sender env r n o s h = rw s (ground arith)

module _ (env : Env) (bufsize bs : ℕ) (w : World) (f : Fits w.lbuf w.shmem bufsize bs) where
  pub benchmark_shmem-sender_places :
      is_sender env ≡ true
      → bufsize % bs ≡ 0
      → Returns
          (λ _ w'.
            SamePlace w.lbuf w'.lbuf
            × SamePlace w.shmem w'.shmem
            × (w'.comm ≡ run_comm env w.comm)
            × ((o : ℕ) → o < bufsize → w'.shmem.cell (w.shmem.base + o) ≡ b'x'))
          (benchmark_shmem env (whole_iovec w.lbuf.base bufsize bs) bufsize bs w)
  unfolding benchmark_shmem new_dummybuf free_dummybuf
  benchmark_shmem-sender_places s exact =
      let w1 = record w { blocks = suc w.blocks; log = alloc w.blocks env.size ∷ w.log } in
      let lbuf = filled env w.lbuf bufsize in
      let w2 = record w1 { lbuf = lbuf } in
      let loop =
        for-Returns (Published env lbuf w.shmem bufsize w.comm) (num_iter + skip_iter)
          (shmem_iteration env (whole_iovec w.lbuf.base bufsize bs) bufsize bs)
          (sender_body env lbuf w.shmem (omega arith) exact w.comm s) (num_iter + skip_iter) 0 refl
          w2 (start-Progress env lbuf w2 refl refl, refl, λ h. absurd (omega arith)) in
      rw (s, fill_lbuf-ok env bufsize w1 f.lbuf_room)
        (Returns.bind loop λ _ w' (p, same, shown). returns (
          record { base = p.lbase; size = p.lsize },
          record { base = p.sbase; size = p.ssize },
          ap (λ (c : List Comm). barrier ∷ c) p.called,
          λ o h. shown (omega arith) o h ∙ filled-sender env w.lbuf bufsize o s h,
        ))

  pub benchmark_shmem-receiver_places :
      is_sender env ≡ false
      → bufsize % bs ≡ 0
      → Returns
          (λ _ w'.
            SamePlace w.lbuf w'.lbuf
            × SamePlace w.shmem w'.shmem
            × (w'.comm ≡ run_comm env w.comm)
            × ((o : ℕ)
                → o < bufsize
                → w'.lbuf.cell (w.lbuf.base + o) ≡ env.shared (w.bcasts + 109) (w.shmem.base + o)))
          (benchmark_shmem env (whole_iovec w.lbuf.base bufsize bs) bufsize bs w)
  unfolding benchmark_shmem new_dummybuf free_dummybuf
  benchmark_shmem-receiver_places r exact =
      let lbuf = filled env w.lbuf bufsize in
      let w2 = record w { lbuf = lbuf } in
      let loop =
        for-Returns (Delivered env lbuf w.shmem (omega arith) exact w.comm w.bcasts)
          (num_iter + skip_iter)
          (shmem_iteration env (whole_iovec w.lbuf.base bufsize bs) bufsize bs)
          (receiver_body env lbuf w.shmem (omega arith) exact w.comm w.bcasts r)
          (num_iter + skip_iter) 0 refl w2
          (start-Progress env lbuf w2 refl refl, omega arith, λ h. absurd (omega arith)) in
      rw (r, fill_lbuf-ok env bufsize w f.lbuf_room)
        (Returns.bind loop λ _ w' (p, count, got). returns (
          record { base = p.lbase; size = p.lsize },
          record { base = p.sbase; size = p.ssize },
          ap (λ (c : List Comm). barrier ∷ c) p.called,
          λ o h. got (omega arith) o h,
        ))

  -- Under the bounds of Fits, for a block size that divides the buffer size and buffers that hold
  -- it, the sender's run of benchmark_shmem ends without error or failed assertion, having stored
  -- an 'x' in every byte of the shared region, after one broadcast and one gather for each of the
  -- 110 iterations and a barrier.
  pub benchmark_shmem-sender :
      is_sender env ≡ true
      → bufsize % bs ≡ 0
      → Returns
          (λ _ w'.
            (w'.comm ≡ run_comm env w.comm)
            × ((o : ℕ) → o < bufsize → w'.shmem.cell (w.shmem.base + o) ≡ b'x'))
          (benchmark_shmem env (whole_iovec w.lbuf.base bufsize bs) bufsize bs w)
  benchmark_shmem-sender s exact =
      Returns.mono (benchmark_shmem-sender_places s exact)
        λ _ w' (l, m, calls, bytes). (calls, bytes)

  -- Under the bounds of Fits, for a block size that divides the buffer size and buffers that hold
  -- it, a receiver's run of benchmark_shmem ends without error or failed assertion, makes the
  -- collective calls of `run_comm`, as the sender does, and leaves in every byte of its own buffer
  -- what the shared region held when the last broadcast returned.
  pub benchmark_shmem-receiver :
      is_sender env ≡ false
      → bufsize % bs ≡ 0
      → Returns
          (λ _ w'.
            (w'.comm ≡ run_comm env w.comm)
            × ((o : ℕ)
                → o < bufsize
                → w'.lbuf.cell (w.lbuf.base + o) ≡ env.shared (w.bcasts + 109) (w.shmem.base + o)))
          (benchmark_shmem env (whole_iovec w.lbuf.base bufsize bs) bufsize bs w)
  benchmark_shmem-receiver r exact =
      Returns.mono (benchmark_shmem-receiver_places r exact)
        λ _ w' (l, m, calls, bytes). (calls, bytes)

  -- Under the bounds of Fits, for buffers that hold it, and a block size that does not divide the
  -- buffer size, the sender's run of benchmark_shmem ends with a failed assertion.
  pub benchmark_shmem-partial_block :
      is_sender env ≡ true
      → bufsize % bs ≢ 0
      → benchmark_shmem env (whole_iovec w.lbuf.base bufsize bs) bufsize bs w ≡ err assert_failed
  unfolding benchmark_shmem new_dummybuf shmem_iteration for
  benchmark_shmem-partial_block s part =
      let w1 = record w { blocks = suc w.blocks; log = alloc w.blocks env.size ∷ w.log } in
      let w2 = record w1 { lbuf = filled env w.lbuf bufsize } in
      rw (
        s,
        fill_lbuf-ok env bufsize w1 f.lbuf_room,
        sender_copy-err env w2 w.lbuf.base refl (omega arith) part,
      )
