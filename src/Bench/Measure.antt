-- ===== src/Bench/Measure.antt =====
-- The body of the sweep of main in src/bench.c: all the benchmarks at one block size.
use mpidt_benchmark.Base.{
  some, ℕ, ◌+◌, ◌/◌, ◌<◌, ◌≡◌, refl, true, false, List, ◌∷◌, Bool-cases, inl, inr, lt→ltb, ◌==◌,
}
use mpidt_benchmark.Memory.{ok}
use mpidt_benchmark.Iovec.{Iovec}
use mpidt_benchmark.World.{
  Env, World, M, Comm, Event, barrier, mmap, ftruncate, shm_open, shm_close, munmap, is_sender,
}
use mpidt_benchmark.World.Returns
use mpidt_benchmark.World.Returns.{Returns, returns}
use mpidt_benchmark.Shmem.{num_iter, skip_iter, done, unmapped, init_shmem, cleanup_shmem}
use mpidt_benchmark.Shmem.Copy.{divide-ok}
use mpidt_benchmark.Shmem.Run.{run_comm}
use mpidt_benchmark.Pipeline.{pipeline_depth}
use mpidt_benchmark.Pipeline.Round.{pip_comm}
use mpidt_benchmark.Cma.{Readv}
use mpidt_benchmark.Cma.Iteration.{cma_run_comm}
use mpidt_benchmark.Xpmem.Run.{xpmem_comm}
use mpidt_benchmark.Bench.{measure}
use mpidt_benchmark.Bench.Phases.{
  IsSystem, IsSize, HasLbuf, shmem_phase, pip_phase, cma_phase, nocache_phase, cached_phase,
}

-- The body at a block size, with the array that the sender broadcasts then.
abbrev pub body : Env → Readv → (ℕ → List Iovec) → ℕ → ℕ → M (Unit {0})
body env read sent bufsize bs = measure (record env { peer_iov = sent bs }) read bufsize bs

-- The collective calls at one block size, newest first.
abbrev pub measure_comm : Env → ℕ → ℕ → List Comm → List Comm
measure_comm env bufsize bs c =
    barrier
    ∷ xpmem_comm env (bufsize / bs) (
        barrier
        ∷ xpmem_comm env (bufsize / bs) (
            barrier
            ∷ cma_run_comm env (bufsize / bs) (
                barrier
                ∷ barrier
                ∷ pip_comm env (bufsize / pipeline_depth) (num_iter + skip_iter)
                    (barrier ∷ run_comm env c))))

-- What the body leaves: the local buffer in its place, the calls, and at a receiver the sender's
-- bytes.
pub record IsMeasured (env : Env) (bufsize lb bs : ℕ) (w w' : World) : Type 0 where
  pub placed : HasLbuf lb bufsize w'
  pub called : w'.comm ≡ measure_comm env bufsize bs w.comm
  pub got :
      is_sender env ≡ false
      → (o : ℕ) → o < bufsize
      → w'.lbuf.cell (lb + o) ≡ env.peer.cell (env.peer.base + o)

init_shmem-ok :
    (env : Env) (bufsize shm_base : ℕ) (w : World)
    → env.opened ≡ true
    → env.truncated ≡ true
    → env.mapped ≡ some shm_base
    → init_shmem env bufsize w
      ≡ ok (
        done,
        record w {
          shmem = record { base = shm_base; size = bufsize; cell = env.garbage };
          log = mmap bufsize ∷ ftruncate bufsize ∷ shm_open ∷ w.log;
        },
      )
unfolding init_shmem
init_shmem-ok env bufsize shm_base w opened truncated mapped = simp (opened, truncated, mapped) refl

cleanup_shmem-ok :
    (env : Env) (bufsize : ℕ) (w : World)
    → env.opened ≡ true
    → cleanup_shmem env bufsize w
      ≡ ok (tt, record w { shmem = unmapped; log = shm_close ∷ munmap bufsize ∷ w.log })
unfolding cleanup_shmem
cleanup_shmem-ok env bufsize w opened = simp opened refl

module _ (env : Env) (read : Readv) (sent : ℕ → List Iovec) (bufsize bs lb shm_base : ℕ)
    (sys : IsSystem env bufsize lb shm_base) (size : IsSize env read (sent bs) bufsize lb bs) where
  pub measure-runs :
      (w : World)
      → HasLbuf lb bufsize w
      → Returns (λ _ w'. IsMeasured env bufsize lb bs w w') (body env read sent bufsize bs w)
  unfolding measure
  measure-runs w l =
      let here : Env = record env { peer_iov = sent bs } in
      rw
        (
          divide-ok bufsize bs size.positive,
          lt→ltb 0 bs size.positive,
          init_shmem-ok here bufsize shm_base _ sys.opened sys.truncated sys.mapped,
        )
        (simp (l.base) (
          Returns.bind
            (shmem_phase env read (sent bs) bufsize bs lb shm_base sys size _
              (record { base = l.base; size = l.size }) (record { base = refl; size = refl }))
            λ _ w2 (l2, m2, c2).
              Returns.bind
                (pip_phase env read (sent bs) bufsize bs lb shm_base sys size _
                  (record { base = l2.base; size = l2.size })
                  (record { base = m2.base; size = m2.size }))
                λ _ w3 (l3, c3). rw (cleanup_shmem-ok here bufsize w3 sys.opened) (
                  Returns.bind
                    (cma_phase env read (sent bs) bufsize bs lb shm_base sys size _
                      (record { base = l3.base; size = l3.size }))
                    λ _ w4 (l4, c4).
                      Returns.bind
                        (nocache_phase env read (sent bs) bufsize bs lb shm_base sys size _
                          (record { base = l4.base; size = l4.size }))
                        λ _ w5 (l5, c5).
                          Returns.bind
                            (cached_phase env read (sent bs) bufsize bs lb shm_base sys size _
                              (record { base = l5.base; size = l5.size }))
                            λ _ w6 (l6, c6, got).
                              let end : (log : List Event)
                                  → IsMeasured env bufsize lb bs w
                                      (record w6 { comm = barrier ∷ w6.comm; log = log }) =
                                λ log. record {
                                  placed = record { base = l6.base; size = l6.size };
                                  called = rw (c6, c5, c4, c3, c2) refl;
                                  got = got;
                                } in
                              elim (Bool-cases (env.rank == 0)) [
                                | inl first ↦ simp first (returns (end _))
                                | inr other ↦ simp other (returns (end _))
                              ])))
