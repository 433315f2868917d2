-- ===== src/Bench/Run.antt =====
-- The whole program of src/bench.c, at every process.
use mpidt_benchmark.Base.{
  ℕ, zero, suc, ◌*◌, ◌^◌, ◌≤◌, ◌<◌, ◌≡◌, refl, ap, ◌∙◌, arith, List, ◌∷◌, Bool-cases, inl, inr,
  dec_lt,
}
use native.Mathlib.Nat.{pow-suc}
use mpidt_benchmark.Iovec.{Iovec}
use mpidt_benchmark.World.{
  Env, World, Comm, Event, init, barrier, finalize, is_sender, memalign_lbuf,
}
use mpidt_benchmark.World.Returns
use mpidt_benchmark.World.Returns.{Returns, returns}
use mpidt_benchmark.Cma.{Readv}
use mpidt_benchmark.Args.{ValidSizes, check_sizes-ok}
use mpidt_benchmark.Bench.{sweep, main}
use mpidt_benchmark.Bench.Sweep.{sweep-ends}
use mpidt_benchmark.Bench.Phases.{IsSystem, IsSize, HasLbuf}
use mpidt_benchmark.Bench.Measure.{body, measure_comm, measure-runs}

-- The collective calls of `k` rounds of the sweep, newest first.
unfoldable pub sweep_comm : Env → ℕ → ℕ → ℕ → List Comm → List Comm
sweep_comm env bufsize min_bs zero c = c
sweep_comm env bufsize min_bs (suc k) c =
    measure_comm env bufsize (min_bs * 2 ^ k) (sweep_comm env bufsize min_bs k c)

-- `k` is the number of rounds from min_bs to max_bs.
pub record IsRounds (min_bs max_bs k : ℕ) : Type 0 where
  pub above : max_bs < min_bs * 2 ^ k
  pub below : (j : ℕ) → j < k → min_bs * 2 ^ j ≤ max_bs

module _ (env : Env) (read : Readv) (sent : ℕ → List Iovec) (bufsize min_bs max_bs shm_base : ℕ)
    (sys : IsSystem env bufsize env.heap_base shm_base)
    (size : (k : ℕ)
      → min_bs * 2 ^ k ≤ max_bs
      → IsSize env read (sent (min_bs * 2 ^ k)) bufsize env.heap_base (min_bs * 2 ^ k)) where
  -- In front of a round of the sweep.
  record Between (c0 : List Comm) (bs : ℕ) (w : World) : Type 0 where
    rounds : ℕ
    reached : bs ≡ min_bs * 2 ^ rounds
    below : (j : ℕ) → j < rounds → min_bs * 2 ^ j ≤ max_bs
    placed : HasLbuf env.heap_base bufsize w
    called : w.comm ≡ sweep_comm env bufsize min_bs rounds c0

  body-Between :
      (c0 : List Comm) (bs : ℕ) (w : World)
      → bs ≤ max_bs
      → Between c0 bs w
      → Returns (λ _ w'. Between c0 (bs * 2) w') (body env read sent bufsize bs w)
  unfolding sweep_comm
  body-Between c0 bs w le b =
      let fits : IsSize env read (sent bs) bufsize env.heap_base bs =
        rw b.reached (size b.rounds (omega (arith, b.reached))) in
      Returns.mono
        (measure-runs env read sent bufsize bs env.heap_base shm_base sys fits w b.placed)
        λ _ w' m. record {
          rounds = suc b.rounds;
          reached = rw (pow-suc, b.reached) (grind arith);
          below = λ j h. elim (dec_lt j b.rounds) [
            | yes before ↦ b.below j before
            | no now ↦
                let e : j ≡ b.rounds = omega arith in
                omega (arith, b.reached, ap (λ (t : ℕ). min_bs * 2 ^ t) e)
          ];
          placed = m.placed;
          called =
              m.called
              ∙ ap (λ (t : ℕ). measure_comm env bufsize t w.comm) b.reached
              ∙ ap (measure_comm env bufsize (min_bs * 2 ^ b.rounds)) b.called;
        }

  sweep-Between :
      (w : World)
      → 0 < min_bs
      → max_bs < 2 ^ 63
      → HasLbuf env.heap_base bufsize w
      → Returns
          (λ _ w'.
            (k : ℕ) × IsRounds min_bs max_bs k × (w'.comm ≡ sweep_comm env bufsize min_bs k w.comm))
          (sweep (body env read sent bufsize) max_bs 65 min_bs w)
  unfolding sweep_comm
  sweep-Between w pos word l =
      let start : Between w.comm min_bs w = record {
        rounds = 0;
        reached = omega arith;
        below = λ j h. absurd (omega arith);
        placed = l;
        called = refl;
      } in
      Returns.mono
        (sweep-ends (Between w.comm) (body env read sent bufsize) min_bs max_bs w pos word
          (λ bs w pos le b. body-Between _ bs w le b) start)
        λ _ w' (last, b, over).
          (b.rounds, record { above = omega (arith, b.reached); below = b.below }, b.called)

  -- Where the system's calls succeed, all the sizes are in order, and every block size of the sweep
  -- can be transferred with an array whose bytes an int counts, main of src/bench.c ends without error at every process, the sender and the
  -- receivers. Its collective calls are MPI_Init, a barrier, those of the five benchmarks for each
  -- of the block sizes min_bs, 2 min_bs, 4 min_bs, ... up to max_bs, and MPI_Finalize: the same
  -- calls, in the same order, at all processes.
  pub bench_main-runs :
      (w : World)
      → ValidSizes bufsize min_bs max_bs
      → Returns
          (λ _ w'.
            (k : ℕ) × IsRounds min_bs max_bs k
            × (w'.comm ≡ finalize ∷ sweep_comm env bufsize min_bs k (barrier ∷ init ∷ w.comm)))
          (main env read sent 4 bufsize min_bs max_bs w)
  unfolding main memalign_lbuf
  bench_main-runs w valid =
      let ends = λ (l : List Event).
        sweep-Between
          (record w {
            lbuf = record { base = env.heap_base; size = bufsize; cell = env.garbage };
            blocks = suc (suc w.blocks);
            comm = barrier ∷ init ∷ w.comm;
            log = l;
          })
          (omega arith) (omega (arith, sys.int_range)) (record { base = refl; size = refl }) in
      rw (check_sizes-ok bufsize min_bs max_bs (record w { comm = init ∷ w.comm }) valid)
        (elim (Bool-cases (is_sender env)) [
          | inl s ↦ rw s (
              Returns.bind (ends _) λ _ w' (k, rounds, called).
                returns (k, rounds, ap (λ (c : List Comm). finalize ∷ c) called))
          | inr r ↦ rw r (
              Returns.bind (ends _) λ _ w' (k, rounds, called).
                returns (k, rounds, ap (λ (c : List Comm). finalize ∷ c) called))
        ])
