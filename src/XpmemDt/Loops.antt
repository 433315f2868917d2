-- ===== src/XpmemDt/Loops.antt =====
-- The loops of src/xpmem_dt.c and src/xpmem_cache_dt.c are those of the benchmarks in src/bench.c.
use mpidt_benchmark.Base.{
  ℕ, zero, suc, ◌+◌, ◌*◌, ◌^◌, ◌<◌, ◌≡◌, refl, sym, ap, arith, Bool, List, Option, some, none,
  Bool-cases, inl, inr, ◌==◌,
}
use mpidt_benchmark.Word.{rounds-id}
use mpidt_benchmark.Memory.{Result, ok, err}
use mpidt_benchmark.Memory
use mpidt_benchmark.World.{Env, World, M, ◌>>=◌, ◌>>◌, pure, when, is_sender, mpi_bcast, mpi_gather}
use mpidt_benchmark.Shmem.{num_iter, skip_iter}
use mpidt_benchmark.Cma.{iovec_bytes}
use mpidt_benchmark.Cma.Iteration.{bcast_iov-ok}
use mpidt_benchmark.Xpmem.{
  Last, Outcome, gave_up, Attached, failed, attached_all, detach_all, copy_out, nocache_receive,
  cached_receive,
}
use mpidt_benchmark.Xpmem
use mpidt_benchmark.XpmemDt

module _ (env : Env) where
  -- The gather behind a receiver's copy, and the rest of the loop: src/bench.c hands the last page on
  -- first.
  nocache_rest :
      (loop next : Last → M Outcome)
      → ((last : Last) (w : World) → loop last w ≡ next last w)
      → (last : Last) (r : Result (Unit {0} × World))
      → Memory.◌>>=◌ (Memory.◌>>=◌ r (λ t. mpi_gather env t.1)) (λ t. loop last t.1)
        ≡ Memory.◌>>=◌ (Memory.◌>>=◌ r (λ t. pure (some last) t.1)) (λ t.
          (elim t.0 as (λ _. M Outcome) [
            | none ↦ pure gave_up
            | some last' ↦ mpi_gather env >>= λ _. next last'
          ])
            t.1)
  nocache_rest loop next same last (ok (a, w)) = same last _
  nocache_rest loop next same last (err e) = refl

  -- A receiver's iteration from the end of its attachments on.
  nocache_tail :
      (n : ℕ) (loop next : Last → M Outcome)
      → ((last : Last) (w : World) → loop last w ≡ next last w)
      → (r : Result (Attached × World))
      → Memory.◌>>=◌ r (λ t.
        (elim t.0 as (λ _. M Outcome) [
          | failed ↦ pure gave_up
          | attached_all segs last ↦
              copy_out env n segs >> detach_all env segs >> mpi_gather env >>= λ _. loop last
        ])
          t.1)
        ≡ Memory.◌>>=◌
            (Memory.◌>>=◌ r (λ t.
              (elim t.0 as (λ _. M (Option Last)) [
                | failed ↦ pure none
                | attached_all segs last ↦
                    copy_out env n segs >> detach_all env segs >> pure (some last)
              ])
                t.1))
            (λ t.
              (elim t.0 as (λ _. M Outcome) [
                | none ↦ pure gave_up
                | some last ↦ mpi_gather env >>= λ _. next last
              ])
                t.1)
  nocache_tail n loop next same (err e) = refl
  nocache_tail n loop next same (ok (failed, w)) = refl
  nocache_tail n loop next same (ok (attached_all segs last, w)) =
      nocache_rest loop next same last ((copy_out env n segs >> detach_all env segs) w)

  cached_rest :
      (loop next : List (Option ℕ) → Last → M Outcome)
      → ((segs : List (Option ℕ)) (last : Last) (w : World) → loop segs last w ≡ next segs last w)
      → (segs : List (Option ℕ)) (last : Last) (r : Result (Unit {0} × World))
      → Memory.◌>>=◌ (Memory.◌>>=◌ r (λ t. mpi_gather env t.1)) (λ t. loop segs last t.1)
        ≡ Memory.◌>>=◌ (Memory.◌>>=◌ r (λ t. pure (attached_all segs last) t.1)) (λ t.
          (elim t.0 as (λ _. M Outcome) [
            | failed ↦ pure gave_up
            | attached_all segs' last' ↦ mpi_gather env >>= λ _. next segs' last'
          ])
            t.1)
  cached_rest loop next same segs last (ok (a, w)) = same segs last _
  cached_rest loop next same segs last (err e) = refl

  cached_tail :
      (n : ℕ) (final last_one : Bool)
      → final ≡ last_one
      → (loop next : List (Option ℕ) → Last → M Outcome)
      → ((segs : List (Option ℕ)) (last : Last) (w : World) → loop segs last w ≡ next segs last w)
      → (r : Result (Attached × World))
      → Memory.◌>>=◌ r (λ t.
        (elim t.0 as (λ _. M Outcome) [
          | failed ↦ pure gave_up
          | attached_all segs last ↦
              copy_out env n segs >> when final (detach_all env segs) >> mpi_gather env >>= λ _.
              loop segs last
        ])
          t.1)
        ≡ Memory.◌>>=◌
            (Memory.◌>>=◌ r (λ t.
              (elim t.0 as (λ _. M Attached) [
                | failed ↦ pure failed
                | attached_all segs last ↦
                    copy_out env n segs
                    >> when last_one (detach_all env segs)
                    >> pure (attached_all segs last)
              ])
                t.1))
            (λ t.
              (elim t.0 as (λ _. M Outcome) [
                | failed ↦ pure gave_up
                | attached_all segs last ↦ mpi_gather env >>= λ _. next segs last
              ])
                t.1)
  cached_tail n final last_one e loop next same (err error) = refl
  cached_tail n final last_one e loop next same (ok (failed, w)) = refl
  cached_tail n final last_one e loop next same (ok (attached_all segs last, w)) = rw e (
      cached_rest loop next same segs last
        ((copy_out env n segs >> when last_one (detach_all env segs)) w))

  module _ (n : ℕ) (count : n * iovec_bytes < 2 ^ 31) where
    few : n < 2 ^ 31
    few = omega arith

    pub nocache_loop-eq :
        (k j : ℕ) (last : Last) (w : World)
        → XpmemDt.nocache_loop env n k j last w ≡ Xpmem.nocache_loop env n k j last w
    unfolding XpmemDt.nocache_loop Xpmem.nocache_loop nocache_receive mpi_bcast
    nocache_loop-eq zero j last w = refl
    nocache_loop-eq (suc k) j last w =
        let tail =
          nocache_tail n (XpmemDt.nocache_loop env n k (suc j)) (Xpmem.nocache_loop env n k (suc j))
            (nocache_loop-eq k (suc j)) in
        elim (Bool-cases (is_sender env)) [
          | inl s ↦ elim (Bool-cases (j == skip_iter)) [
            | inl now ↦ rw (now, bcast_iov-ok env n _ count, s) (nocache_loop-eq k (suc j) last _)
            | inr later ↦
                rw (later, bcast_iov-ok env n _ count, s) (nocache_loop-eq k (suc j) last _)
          ]
          | inr r ↦ elim (Bool-cases (j == skip_iter)) [
            | inl now ↦ rw (now, bcast_iov-ok env n _ count, r, rounds-id n few) (tail _)
            | inr later ↦ rw (later, bcast_iov-ok env n _ count, r, rounds-id n few) (tail _)
          ]
        ]

    cached_attach-eq :
        (j : ℕ) (segs : List (Option ℕ)) (last : Last) (w : World)
        → XpmemDt.cached_attach env n j segs last w ≡ Xpmem.cached_attach env n j segs last w
    unfolding XpmemDt.cached_attach Xpmem.cached_attach
    cached_attach-eq j segs last w = rw (rounds-id n few) refl

    pub cached_loop-eq :
        (k j : ℕ) (segs : List (Option ℕ)) (last : Last) (w : World)
        → XpmemDt.cached_loop env n k j segs last w ≡ Xpmem.cached_loop env n k j segs last w
    unfolding XpmemDt.cached_loop Xpmem.cached_loop cached_receive mpi_bcast
    cached_loop-eq zero j segs last w = refl
    cached_loop-eq (suc k) j segs last w =
        let up : j + 1 ≡ suc j = omega arith in
        let tail =
          cached_tail n (suc j == num_iter + skip_iter) (j + 1 == num_iter + skip_iter)
            (ap (λ (t : ℕ). t == num_iter + skip_iter) (sym up))
            (XpmemDt.cached_loop env n k (suc j)) (Xpmem.cached_loop env n k (suc j))
            (cached_loop-eq k (suc j)) in
        elim (Bool-cases (is_sender env)) [
          | inl s ↦ elim (Bool-cases (j == skip_iter)) [
            | inl now ↦
                rw (now, bcast_iov-ok env n _ count, s) (cached_loop-eq k (suc j) segs last _)
            | inr later ↦
                rw (later, bcast_iov-ok env n _ count, s) (cached_loop-eq k (suc j) segs last _)
          ]
          | inr r ↦ elim (Bool-cases (j == skip_iter)) [
            | inl now ↦
                rw (now, bcast_iov-ok env n _ count, r, cached_attach-eq j segs last _) (tail _)
            | inr later ↦
                rw (later, bcast_iov-ok env n _ count, r, cached_attach-eq j segs last _) (tail _)
          ]
        ]
