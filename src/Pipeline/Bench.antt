-- ===== src/Pipeline/Bench.antt =====
-- Whole runs of benchmark_shmem_pip in src/bench.c, at the sender and at a receiver.
use mpidt_benchmark.Base.{
  ℕ, suc, ◌+◌, ◌*◌, ◌/◌, ◌%◌, ◌<◌, ◌≡◌, ◌≢◌, refl, ap, ◌∙◌, arith, List, ◌∷◌, true, false,
}
use mpidt_benchmark.Word.{narrow-id}
use mpidt_benchmark.Memory.{Region, SamePlace, err, segfault}
use mpidt_benchmark.World.{Env, World, Comm, barrier, alloc, is_sender, for}
use mpidt_benchmark.World.Returns
use mpidt_benchmark.World.Returns.{Returns, returns, for-Returns}
use mpidt_benchmark.Shmem.{num_iter, skip_iter, new_dummybuf, free_dummybuf}
use mpidt_benchmark.Shmem.Copy.{Fits, whole_iovec, divide-ok}
use mpidt_benchmark.Shmem.Run.{filled, fill_lbuf-ok, filled-sender}
use mpidt_benchmark.Pipeline.{
  cursor, pip_round, pip_iteration, run_pipeline, benchmark_shmem_pip, pipeline_depth,
}
use mpidt_benchmark.Pipeline.Send.{IsDepth, send_loop-overrun}
use mpidt_benchmark.Pipeline.Receive.{Visible}
use mpidt_benchmark.Pipeline.Round.{
  pip_comm, exact_pieces, pieces_le, IsAt-start, Sender, Receiver, send_body, recv_body,
}

module _ (env : Env) (bufsize bs full : ℕ) (w : World) where
  run_pipeline-sender :
      Fits w.lbuf w.shmem bufsize bs
      → IsDepth full
      → is_sender env ≡ true
      → bufsize % bs ≡ 0
      → bufsize % full ≡ 0
      → Returns
          (λ _ w'.
            SamePlace w.lbuf w'.lbuf
            × SamePlace w.shmem w'.shmem
            × (w'.comm ≡ barrier ∷ pip_comm env (bufsize / full) (num_iter + skip_iter) w.comm)
            × ((o : ℕ) → o < bufsize → w'.shmem.cell (w.shmem.base + o) ≡ b'x'))
          (run_pipeline env full (whole_iovec w.lbuf.base bufsize bs) bufsize bs w)
  unfolding run_pipeline new_dummybuf free_dummybuf
  run_pipeline-sender f depth s whole even =
      let w1 = record w { blocks = suc w.blocks; log = alloc w.blocks env.size ∷ w.log } in
      let lbuf = filled env w.lbuf bufsize in
      let w2 = record w1 { lbuf = lbuf } in
      let g : Fits lbuf w.shmem bufsize bs = omega arith in
      let start : Sender env lbuf w.shmem bufsize bs full g depth whole w.comm 0 w2 = record {
        same = refl;
        sbase = refl;
        ssize = refl;
        called = unfold pip_comm in refl;
        shown = λ h. absurd (omega arith);
      } in
      let loop =
        for-Returns (Sender env lbuf w.shmem bufsize bs full g depth whole w.comm)
          (num_iter + skip_iter) (pip_iteration env full _ bufsize bs)
          (send_body env lbuf w.shmem bufsize bs full g depth whole w.comm s even)
          (num_iter + skip_iter) 0 refl w2 start in
      rw (s, fill_lbuf-ok env bufsize w1 f.lbuf_room)
        (Returns.bind loop λ _ w' inv. returns (
          record {
            base = ap (λ (d : Region). d.base) inv.same;
            size = ap (λ (d : Region). d.size) inv.same;
          },
          record { base = inv.sbase; size = inv.ssize },
          ap (λ (c : List Comm). barrier ∷ c) inv.called,
          λ o h. inv.shown (omega arith) o h ∙ filled-sender env w.lbuf bufsize o s h,
        ))

  run_pipeline-receiver :
      (content : ℕ → ℕ)
      → Fits w.lbuf w.shmem bufsize bs
      → IsDepth full
      → is_sender env ≡ false
      → bufsize % bs ≡ 0
      → bufsize % full ≡ 0
      → ((i : ℕ)
          → Visible env content w.shmem.base full
              (w.bcasts + i * (bufsize / full))
              0
              (bufsize / full))
      → Returns
          (λ _ w'.
            SamePlace w.lbuf w'.lbuf
            × SamePlace w.shmem w'.shmem
            × (w'.comm ≡ barrier ∷ pip_comm env (bufsize / full) (num_iter + skip_iter) w.comm)
            × ((o : ℕ) → o < bufsize → w'.lbuf.cell (w.lbuf.base + o) ≡ content o))
          (run_pipeline env full (whole_iovec w.lbuf.base bufsize bs) bufsize bs w)
  unfolding run_pipeline new_dummybuf free_dummybuf
  run_pipeline-receiver content f depth r whole even feeds =
      let lbuf = filled env w.lbuf bufsize in
      let w2 = record w { lbuf = lbuf } in
      let g : Fits lbuf w.shmem bufsize bs = omega arith in
      let start : Receiver env lbuf w.shmem bufsize bs full g depth whole content w.comm w.bcasts 0
          w2 =
        record {
          buffers = record { lbase = refl; lsize = refl; sbase = refl; ssize = refl };
          count = omega arith;
          called = unfold pip_comm in refl;
          got = λ h. absurd (omega arith);
        } in
      let loop =
        for-Returns
          (Receiver env lbuf w.shmem bufsize bs full g depth whole content w.comm w.bcasts)
          (num_iter + skip_iter) (pip_iteration env full _ bufsize bs)
          (recv_body env lbuf w.shmem bufsize bs full g depth whole content w.comm w.bcasts r even
            feeds)
          (num_iter + skip_iter) 0 refl w2 start in
      rw (r, fill_lbuf-ok env bufsize w f.lbuf_room)
        (Returns.bind loop λ _ w' inv. returns (
          record { base = inv.buffers.lbase; size = inv.buffers.lsize },
          record { base = inv.buffers.sbase; size = inv.buffers.ssize },
          ap (λ (c : List Comm). barrier ∷ c) inv.called,
          λ o h. inv.got (omega arith) o h,
        ))

  run_pipeline-overrun :
      Fits w.lbuf w.shmem bufsize bs
      → IsDepth full
      → is_sender env ≡ true
      → bufsize % bs ≡ 0
      → bufsize % full ≢ 0
      → run_pipeline env full (whole_iovec w.lbuf.base bufsize bs) bufsize bs w ≡ err segfault
  unfolding run_pipeline new_dummybuf pip_iteration pip_round for
  run_pipeline-overrun f depth s whole part =
      let w1 = record w { blocks = suc w.blocks; log = alloc w.blocks env.size ∷ w.log } in
      let lbuf = filled env w.lbuf bufsize in
      let w2 = record w1 { lbuf = lbuf } in
      let g : Fits lbuf w.shmem bufsize bs = omega arith in
      let blocks = exact_pieces bufsize bs whole in
      let few = pieces_le bufsize bs in
      let fewer = pieces_le bufsize full in
      let below : bufsize / full * full < bufsize = grind arith in
      let above : bufsize < bufsize / full * full + full = let d = depth.positive in grind arith in
      let run =
        send_loop-overrun env lbuf w.shmem bufsize bs full g depth (bufsize / full) (suc bufsize) 0
          (cursor 0 0 0 0) w2 s (omega arith) (omega arith) (omega arith) (IsAt-start bs f.positive)
          refl refl refl in
      rw (
        s,
        fill_lbuf-ok env bufsize w1 f.lbuf_room,
        divide-ok bufsize bs f.positive,
        narrow-id (bufsize / bs) (omega (arith, f.int_range)),
        run,
      )

IsDepth-ok : IsDepth pipeline_depth
IsDepth-ok = omega arith

module _ (env : Env) (bufsize bs : ℕ) (w : World) (f : Fits w.lbuf w.shmem bufsize bs) where
  pub benchmark_shmem_pip-sender_places :
      is_sender env ≡ true
      → bufsize % bs ≡ 0
      → bufsize % pipeline_depth ≡ 0
      → Returns
          (λ _ w'.
            SamePlace w.lbuf w'.lbuf
            × SamePlace w.shmem w'.shmem
            × (w'.comm
                ≡ barrier ∷ pip_comm env (bufsize / pipeline_depth) (num_iter + skip_iter) w.comm)
            × ((o : ℕ) → o < bufsize → w'.shmem.cell (w.shmem.base + o) ≡ b'x'))
          (benchmark_shmem_pip env (whole_iovec w.lbuf.base bufsize bs) bufsize bs w)
  unfolding benchmark_shmem_pip
  benchmark_shmem_pip-sender_places =
      run_pipeline-sender env bufsize bs pipeline_depth w f IsDepth-ok

  pub benchmark_shmem_pip-receiver_places :
      (content : ℕ → ℕ)
      → is_sender env ≡ false
      → bufsize % bs ≡ 0
      → bufsize % pipeline_depth ≡ 0
      → ((i : ℕ)
          → Visible env content w.shmem.base pipeline_depth
              (w.bcasts + i * (bufsize / pipeline_depth))
              0
              (bufsize / pipeline_depth))
      → Returns
          (λ _ w'.
            SamePlace w.lbuf w'.lbuf
            × SamePlace w.shmem w'.shmem
            × (w'.comm
                ≡ barrier ∷ pip_comm env (bufsize / pipeline_depth) (num_iter + skip_iter) w.comm)
            × ((o : ℕ) → o < bufsize → w'.lbuf.cell (w.lbuf.base + o) ≡ content o))
          (benchmark_shmem_pip env (whole_iovec w.lbuf.base bufsize bs) bufsize bs w)
  unfolding benchmark_shmem_pip
  benchmark_shmem_pip-receiver_places content =
      run_pipeline-receiver env bufsize bs pipeline_depth w content f IsDepth-ok

  -- Under the bounds of Fits, for a block size and a pipeline depth that both divide the buffer
  -- size, the sender's run of benchmark_shmem_pip ends without error, out-of-bounds access or
  -- failed assertion, with one broadcast for every 65536 bytes and a gather in each of the 110
  -- iterations and a barrier, and every byte of the shared region is an 'x'.
  pub benchmark_shmem_pip-sender :
      is_sender env ≡ true
      → bufsize % bs ≡ 0
      → bufsize % pipeline_depth ≡ 0
      → Returns
          (λ _ w'.
            (w'.comm
              ≡ barrier ∷ pip_comm env (bufsize / pipeline_depth) (num_iter + skip_iter) w.comm)
            × ((o : ℕ) → o < bufsize → w'.shmem.cell (w.shmem.base + o) ≡ b'x'))
          (benchmark_shmem_pip env (whole_iovec w.lbuf.base bufsize bs) bufsize bs w)
  benchmark_shmem_pip-sender s whole even =
      Returns.mono (benchmark_shmem_pip-sender_places s whole even)
        λ _ w' (l, m, calls, bytes). (calls, bytes)

  -- Under the bounds of Fits, for a block size and a pipeline depth that both divide the buffer
  -- size, and where each broadcast of an iteration shows a receiver one more piece of `content`,
  -- its run of benchmark_shmem_pip ends without error, makes the collective calls of `pip_comm`, as
  -- the sender does, and leaves `content` in its own buffer.
  pub benchmark_shmem_pip-receiver :
      (content : ℕ → ℕ)
      → is_sender env ≡ false
      → bufsize % bs ≡ 0
      → bufsize % pipeline_depth ≡ 0
      → ((i : ℕ)
          → Visible env content w.shmem.base pipeline_depth
              (w.bcasts + i * (bufsize / pipeline_depth))
              0
              (bufsize / pipeline_depth))
      → Returns
          (λ _ w'.
            (w'.comm
              ≡ barrier ∷ pip_comm env (bufsize / pipeline_depth) (num_iter + skip_iter) w.comm)
            × ((o : ℕ) → o < bufsize → w'.lbuf.cell (w.lbuf.base + o) ≡ content o))
          (benchmark_shmem_pip env (whole_iovec w.lbuf.base bufsize bs) bufsize bs w)
  benchmark_shmem_pip-receiver content r whole even feeds =
      Returns.mono (benchmark_shmem_pip-receiver_places content r whole even feeds)
        λ _ w' (l, m, calls, bytes). (calls, bytes)

  -- Under the bounds of Fits, for a buffer of whole blocks whose size is not a multiple of 65536,
  -- the sender's run of benchmark_shmem_pip ends with an access outside of the iovec array or a
  -- buffer.
  pub benchmark_shmem_pip-overrun :
      is_sender env ≡ true
      → bufsize % bs ≡ 0
      → bufsize % pipeline_depth ≢ 0
      → benchmark_shmem_pip env (whole_iovec w.lbuf.base bufsize bs) bufsize bs w ≡ err segfault
  unfolding benchmark_shmem_pip
  benchmark_shmem_pip-overrun = run_pipeline-overrun env bufsize bs pipeline_depth w f IsDepth-ok
