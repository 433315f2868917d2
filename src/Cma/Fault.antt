-- ===== src/Cma/Fault.antt =====
-- Failed and short transfers of process_vm_readv in benchmark_cma of src/bench.c.
use mpidt_benchmark.Base.{
  ℕ, zero, suc, ◌+◌, ◌*◌, ◌∙◌, ◌/◌, ◌%◌, ◌^◌, ◌≤◌, ◌<◌, ◌≡◌, ◌≢◌, ◌∷◌, refl, arith, false, List,
  Bool-cases, inl, inr, lt→ltb, ltb, le→not-ltb, ne→==,
}
use mpidt_benchmark.Word.{narrow-id, rounds-id, add64, sub64}
use mpidt_benchmark.Memory.{Region, ok, err, assert_failed}
use mpidt_benchmark.Iovec.{Iovec, init_iovec}
use mpidt_benchmark.World.{Env, World, bcast, is_sender, mpi_bcast, for}
use mpidt_benchmark.Shmem.{new_dummybuf}
use mpidt_benchmark.Shmem.Copy.{Fits, whole_iovec, divide-ok}
use mpidt_benchmark.Shmem.Run.{filled, fill_lbuf-ok}
use mpidt_benchmark.Cma.Iteration.{bcast_iov-ok}
use mpidt_benchmark.Cma.{
  Readv, bcast_iov, iovec_bytes, pid_bytes, curr_blks, read_loop, read_remote, cma_round,
  cma_iteration, benchmark_cma,
}
use mpidt_benchmark.Cma.Read.{slice-init_iovec}

-- All the blocks in one call that transfers `count` bytes: the loop ends with `count`.
read_loop-once :
    (read : Readv) (limit n count lbase rbase bs bufsize : ℕ) (d : Region)
    → 0 < n
    → n < limit
    → 0 < bufsize
    → count < 2 ^ 64
    → ((l r : List Iovec) (d : Region) → (read l r d).0 ≡ count)
    → (d' : Region) × (read_loop read limit n
          (init_iovec lbase bs n 0)
          (init_iovec rbase bs n 0)
          (suc n)
          0
          bufsize
          0
          d
        ≡ ok (count, d'))
unfolding read_loop add64
read_loop-once read limit zero count lbase rbase bs bufsize d some few some_bytes word answer =
    absurd (omega arith)
read_loop-once read limit (suc k) count lbase rbase bs bufsize d some few some_bytes word answer =
    let n = suc k in
    let l = init_iovec lbase bs n 0 in
    let r = init_iovec rbase bs n 0 in
    let all : curr_blks n limit ≡ n = unfold curr_blks in rw (lt→ltb n limit few) refl in
    let total : (0 + count) % 2 ^ 64 ≡ count = omega arith in
    (
      (read l r d).1,
      rw
          (
            lt→ltb 0 bufsize some_bytes,
            lt→ltb 0 n (omega arith),
            all,
            slice-init_iovec lbase bs n 0 n (omega arith),
            slice-init_iovec rbase bs n 0 n (omega arith),
            answer l r d,
            total,
          )
          (elim (Bool-cases (ltb 0 (sub64 bufsize count))) [
            | inl more ↦ rw (more, le→not-ltb (0 + n) n (omega arith)) refl
            | inr ended ↦ rw ended refl
          ]),
    )

-- Under the bounds of Fits, for whole blocks of a buffer that is not empty, a number of blocks below
-- the kernel's limit, an array whose bytes an int counts, and a process_vm_readv that answers with another count than the buffer's size,
-- after an error (-1, as a size_t) or a short transfer: a receiver's run of benchmark_cma ends with a
-- failed assertion.
pub benchmark_cma-short :
    (env : Env) (read : Readv) (bufsize bs count : ℕ) (w : World)
    → Fits w.lbuf env.peer bufsize bs
    → env.peer_iov ≡ whole_iovec env.peer.base bufsize bs
    → is_sender env ≡ false
    → 0 < bufsize / bs
    → bufsize / bs < env.iov_limit
    → bufsize / bs * iovec_bytes < 2 ^ 31
    → count < 2 ^ 64
    → count ≢ bufsize
    → ((l r : List Iovec) (d : Region) → (read l r d).0 ≡ count)
    → benchmark_cma env read (whole_iovec w.lbuf.base bufsize bs) bufsize bs w ≡ err assert_failed
unfolding benchmark_cma new_dummybuf mpi_bcast cma_iteration cma_round read_remote for
benchmark_cma-short env read bufsize bs count w f arrived r some few counted word other answer =
    let n = bufsize / bs in
    let le : n ≤ bufsize = grind arith in
    let w1 = record w {
      shmem = record w.shmem { cell = env.shared w.bcasts };
      bcasts = suc w.bcasts;
      comm = bcast env.sender pid_bytes ∷ w.comm;
    } in
    let w2 = record w1 { lbuf = filled env w.lbuf bufsize } in
    let w3 = record w2 {
      shmem = record w.shmem { cell = env.shared (suc w.bcasts) };
      bcasts = suc (suc w.bcasts);
      comm = bcast env.sender (n * iovec_bytes) ∷ bcast env.sender pid_bytes ∷ w.comm;
    } in
    let sent : bcast_iov env n w2 ≡ ok (tt, w3) = bcast_iov-ok env n w2 counted ∙ rw r refl in
    let (d', once) =
      read_loop-once read env.iov_limit n count w.lbuf.base env.peer.base bs bufsize
        (filled env w.lbuf bufsize) some few (omega arith) word answer in
    rw
      (
        divide-ok bufsize bs f.positive,
        narrow-id n (omega (arith, f.int_range)),
        r,
        fill_lbuf-ok env bufsize w1 f.lbuf_room,
        sent,
        rounds-id n (omega (arith, f.int_range)),
        arrived,
        once,
        ne→== count bufsize other,
      )
      refl
