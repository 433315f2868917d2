-- ===== src/Pipeline/Round.antt =====
-- The iterations of benchmark_shmem_pip: their collective calls, and an invariant for either side.
use mpidt_benchmark.Base.{
  ℕ, zero, suc, ◌+◌, ◌*◌, ◌/◌, ◌%◌, ◌≤◌, ◌<◌, ◌≡◌, ap, ◌∙◌, arith, List, [], ◌∷◌, true, false,
  Bool-cases, inl, inr, ◌==◌, eq→==, repeat_append,
}
use mpidt_benchmark.Word.{narrow-id}
use mpidt_benchmark.Memory.{Region, ok, blit}
use mpidt_benchmark.Memory.Blit.{blit-base, blit-size, blit-inside}
use mpidt_benchmark.Iovec.{Iovec}
use mpidt_benchmark.World.{Env, World, Comm, bcast, gather, is_sender, wtime}
use mpidt_benchmark.World.Returns
use mpidt_benchmark.World.Returns.{Returns, returns, for-Returns}
use mpidt_benchmark.Shmem.{num_iter, skip_iter}
use mpidt_benchmark.Shmem.Copy.{Fits, whole_iovec, divide-ok}
use mpidt_benchmark.Pipeline.{Cursor, cursor, finish, pip_round, pip_iteration}
use mpidt_benchmark.Pipeline.Pass.{IsAt}
use mpidt_benchmark.Pipeline.Send
use mpidt_benchmark.Pipeline.Send.{IsDepth, send_loop-Returns, send_loop-overrun}
use mpidt_benchmark.Pipeline.Receive.{Visible, HasBuffers, recv_loop-Returns}

-- The collective calls of `i` iterations of `m` broadcasts, newest first.
unfoldable pub pip_comm : Env → ℕ → ℕ → List Comm → List Comm
pip_comm env m zero c = c
pip_comm env m (suc i) c =
    gather env.sender 1 ∷ repeat_append m (bcast env.sender 1 ∷ []) (pip_comm env m i c)

pub exact_pieces : (n d : ℕ) → n % d ≡ 0 → n / d * d ≡ n
exact_pieces n d h = grind arith

pub pieces_le : (n d : ℕ) → n / d ≤ n
pieces_le n d = grind arith

finish-ok :
    (env : Env) (full : ℕ) (iov : List Iovec) (bs niov bufsize : ℕ) (p : Cursor) (w : World)
    → IsAt bs (niov * bs) p
    → niov * bs ≡ bufsize
    → finish env full iov niov bufsize p w
      ≡ ok (tt, record w { comm = gather env.sender 1 ∷ w.comm })
unfolding finish
finish-ok env full iov bs niov bufsize p w at e =
    rw (
      eq→== p.iovcnt niov (Send.at_end bs niov p at),
      eq→== p.nread bufsize (omega (arith, at.read)),
    )

pub IsAt-start : (bs : ℕ) → 0 < bs → IsAt bs 0 (cursor 0 0 0 0)
IsAt-start bs h = omega arith

module _ (env : Env) (lbuf shmem : Region) (bufsize bs full : ℕ) (f : Fits lbuf shmem bufsize bs)
    (depth : IsDepth full) (whole : bufsize % bs ≡ 0) where
  abbrev iov : List Iovec
  iov = whole_iovec lbuf.base bufsize bs

  abbrev pieces : ℕ
  pieces = bufsize / full

  pub record Sender (c0 : List Comm) (i : ℕ) (w : World) : Type 0 where
    pub same : w.lbuf ≡ lbuf
    pub sbase : w.shmem.base ≡ shmem.base
    pub ssize : w.shmem.size ≡ shmem.size
    pub called : w.comm ≡ pip_comm env pieces i c0
    pub shown :
        0 < i → (o : ℕ) → o < bufsize → w.shmem.cell (shmem.base + o) ≡ lbuf.cell (lbuf.base + o)

  send_round :
      (c0 : List Comm) (i : ℕ) (w : World)
      → is_sender env ≡ true
      → bufsize % full ≡ 0
      → Sender c0 i w
      → Returns (λ _ w'. Sender c0 (suc i) w') (pip_round env full iov bufsize bs w)
  unfolding pip_round pip_comm
  send_round c0 i w s even inv =
      let blocks = exact_pieces bufsize bs whole in
      let all = exact_pieces bufsize full even in
      let few = pieces_le bufsize bs in
      let fewer = pieces_le bufsize full in
      let run =
        send_loop-Returns env lbuf shmem bufsize bs full f depth pieces (suc bufsize) 0
          (cursor 0 0 0 0) w s (omega arith) (omega arith) (IsAt-start bs f.positive) inv.same
          inv.sbase inv.ssize in
      rw (divide-ok bufsize bs f.positive, narrow-id (bufsize / bs) (omega (arith, f.int_range)), s)
        (Returns.bind run λ p w' (at, same, moved, called).
          rw (finish-ok env full iov bs (bufsize / bs) bufsize p w' at blocks) (
            returns (record {
              same = same;
              sbase = ap (λ (r : Region). r.base) moved ∙ blit-base w.shmem _ lbuf _ _ ∙ inv.sbase;
              ssize = ap (λ (r : Region). r.size) moved ∙ blit-size w.shmem _ lbuf _ _ ∙ inv.ssize;
              called =
                  ap (λ (c : List Comm). gather env.sender 1 ∷ c)
                    (called ∙ ap (repeat_append pieces (bcast env.sender 1 ∷ [])) inv.called);
              shown = λ _ o lt.
                  ap (λ (r : Region). r.cell (shmem.base + o)) moved
                  ∙ ap (blit w.shmem (shmem.base + 0) lbuf (lbuf.base + 0) (pieces * full)).cell
                      (omega arith)
                  ∙ blit-inside w.shmem (shmem.base + 0) lbuf (lbuf.base + 0) (pieces * full) o
                      (omega arith)
                  ∙ ap (λ (t : ℕ). lbuf.cell (t + o)) (omega arith);
            })))

  -- Every iteration of the run gives the receiver the pieces of `content`, one broadcast each.
  abbrev Feeds : (ℕ → ℕ) → ℕ → Type 0
  Feeds content b0 = (i : ℕ) → Visible env content shmem.base full (b0 + i * pieces) 0 pieces

  pub record Receiver (content : ℕ → ℕ) (c0 : List Comm) (b0 i : ℕ) (w : World) : Type 0 where
    pub buffers : HasBuffers env lbuf shmem bufsize bs full f depth content w
    pub count : w.bcasts ≡ b0 + i * pieces
    pub called : w.comm ≡ pip_comm env pieces i c0
    pub got : 0 < i → (o : ℕ) → o < bufsize → w.lbuf.cell (lbuf.base + o) ≡ content o

  recv_round :
      (content : ℕ → ℕ) (c0 : List Comm) (b0 i : ℕ) (w : World)
      → is_sender env ≡ false
      → bufsize % full ≡ 0
      → Feeds content b0
      → Receiver content c0 b0 i w
      → Returns (λ _ w'. Receiver content c0 b0 (suc i) w') (pip_round env full iov bufsize bs w)
  unfolding pip_round pip_comm
  recv_round content c0 b0 i w r even feeds inv =
      let blocks = exact_pieces bufsize bs whole in
      let all = exact_pieces bufsize full even in
      let few = pieces_le bufsize bs in
      let fewer = pieces_le bufsize full in
      let run =
        recv_loop-Returns env lbuf shmem bufsize bs full f depth content pieces (suc bufsize)
          (b0 + i * pieces) 0 (cursor 0 0 0 0) w r (feeds i) (omega arith) (omega arith)
          (IsAt-start bs f.positive) inv.count inv.buffers in
      rw (divide-ok bufsize bs f.positive, narrow-id (bufsize / bs) (omega (arith, f.int_range)), r)
        (Returns.bind run λ p w' (at, buffers, count, called, (high, low)).
          rw (finish-ok env full iov bs (bufsize / bs) bufsize p w' at blocks) (
            returns {w = record w' { comm = gather env.sender 1 ∷ w'.comm }} (record {
              buffers = record {
                lbase = buffers.lbase;
                lsize = buffers.lsize;
                sbase = buffers.sbase;
                ssize = buffers.ssize;
              };
              count = omega arith;
              called =
                  ap (λ (c : List Comm). gather env.sender 1 ∷ c)
                    (called ∙ ap (repeat_append pieces (bcast env.sender 1 ∷ [])) inv.called);
              got = λ _ o lt. high o (omega arith) (omega arith);
            })))

  -- The time stamp of iteration SKIP_ITER changes the log alone.
  pub send_body :
      (c0 : List Comm)
      → is_sender env ≡ true
      → bufsize % full ≡ 0
      → (i : ℕ) (w : World) → i < num_iter + skip_iter
      → Sender c0 i w
      → Returns (λ _ w'. Sender c0 (suc i) w') (pip_iteration env full iov bufsize bs i w)
  unfolding pip_iteration
  send_body c0 s even i w lt inv = elim (Bool-cases (i == skip_iter)) [
    | inl now ↦
        let w' = record w { log = wtime ∷ w.log } in
        let inv' : Sender c0 i w' = record {
          same = inv.same;
          sbase = inv.sbase;
          ssize = inv.ssize;
          called = inv.called;
          shown = inv.shown;
        } in
        rw now (send_round c0 i w' s even inv')
    | inr later ↦ rw later (send_round c0 i w s even inv)
  ]

  pub recv_body :
      (content : ℕ → ℕ) (c0 : List Comm) (b0 : ℕ)
      → is_sender env ≡ false
      → bufsize % full ≡ 0
      → Feeds content b0
      → (i : ℕ) (w : World) → i < num_iter + skip_iter
      → Receiver content c0 b0 i w
      → Returns
          (λ _ w'. Receiver content c0 b0 (suc i) w')
          (pip_iteration env full iov bufsize bs i w)
  unfolding pip_iteration
  recv_body content c0 b0 r even feeds i w lt inv = elim (Bool-cases (i == skip_iter)) [
    | inl now ↦
        let w' = record w { log = wtime ∷ w.log } in
        let inv' : Receiver content c0 b0 i w' = record {
          buffers = record {
            lbase = inv.buffers.lbase;
            lsize = inv.buffers.lsize;
            sbase = inv.buffers.sbase;
            ssize = inv.buffers.ssize;
          };
          count = inv.count;
          called = inv.called;
          got = inv.got;
        } in
        rw now (recv_round content c0 b0 i w' r even feeds inv')
    | inr later ↦ rw later (recv_round content c0 b0 i w r even feeds inv)
  ]
