-- ===== src/Bench/Sweep.antt =====
-- The loop over the block sizes in main of src/bench.c.
use mpidt_benchmark.Base.{
  ℕ, zero, suc, ◌*◌, ◌%◌, ◌^◌, ◌≤◌, ◌<◌, ◌≡◌, arith, le→leb, lt→not-leb, dec_lt,
}
use native.Mathlib.Nat.{pow-suc}
use mpidt_benchmark.World.{World, M}
use mpidt_benchmark.World.Returns
use mpidt_benchmark.World.Returns.{Returns, returns}
use mpidt_benchmark.Bench.{sweep}

-- The invariant of a sweep sees the next block size.
sweep-Returns :
    (P : ℕ → World → Type 0) (body : ℕ → M (Unit {0})) (max_bs : ℕ)
    → max_bs < 2 ^ 63
    → ((bs : ℕ) (w : World)
        → 0 < bs
        → bs ≤ max_bs
        → P bs w
        → Returns (λ _ w'. P (bs * 2) w') (body bs w))
    → (fuel bs : ℕ) → 0 < bs
    → max_bs < bs * 2 ^ fuel
    → (w : World) → P bs w
    → Returns (λ _ w'. (last : ℕ) × P last w' × (max_bs < last)) (sweep body max_bs (suc fuel) bs w)
unfolding sweep
sweep-Returns P body max_bs word keep zero bs pos far w p =
    rw (lt→not-leb bs max_bs (omega arith)) (returns (bs, p, omega arith))
sweep-Returns P body max_bs word keep (suc fuel) bs pos far w p = elim (dec_lt max_bs bs) [
  | yes over ↦ rw (lt→not-leb bs max_bs over) (returns (bs, p, over))
  | no under ↦
      let double : bs * 2 % 2 ^ 64 ≡ bs * 2 = omega arith in
      let e : bs * 2 ^ suc fuel ≡ bs * 2 * 2 ^ fuel = rw pow-suc (grind arith) in
      rw (le→leb bs max_bs (omega arith), double)
        (Returns.bind (keep bs w pos (omega arith) p) λ _ w' p'.
          sweep-Returns P body max_bs word keep fuel (bs * 2) (omega arith) (omega arith) w' p')
]

-- A sweep whose body keeps an invariant, at every block size from min_bs to max_bs, ends without
-- error within the 65 rounds that main allows, at a size above max_bs: for a positive min_bs, and a
-- max_bs below 2^63, so that doubling it does not wrap around.
pub sweep-ends :
    (P : ℕ → World → Type 0) (body : ℕ → M (Unit {0})) (min_bs max_bs : ℕ) (w : World)
    → 0 < min_bs
    → max_bs < 2 ^ 63
    → ((bs : ℕ) (w : World)
        → 0 < bs
        → bs ≤ max_bs
        → P bs w
        → Returns (λ _ w'. P (bs * 2) w') (body bs w))
    → P min_bs w
    → Returns (λ _ w'. (last : ℕ) × P last w' × (max_bs < last)) (sweep body max_bs 65 min_bs w)
sweep-ends P body min_bs max_bs w pos word keep p =
    sweep-Returns P body max_bs word keep 64 min_bs pos (omega arith) w p
