-- ===== src/World/Returns.antt =====
-- Total correctness of a run: it ends without error, in a result and state that satisfy a
-- postcondition; and the rule for counted loops.
use mpidt_benchmark.Base.{ℕ, zero, suc, ◌+◌, ◌<◌, ◌≡◌, arith}
use mpidt_benchmark.Memory
use mpidt_benchmark.Memory.{Result, ok, err}
use mpidt_benchmark.Base.{Bool, true, false, List, ◌∷◌}
use mpidt_benchmark.World.{World, M, ◌>>◌, for, Event, when, note}

pub data Returns {A : Type 0} (P : A → World → Type 0) : Result (A × World) → Type 0 where
  returns : {a : A} {w : World} → P a w → Returns P (ok (a, w))

module _ {A : Type 0} {P : A → World → Type 0} where
  pub bind :
      {B : Type 0} {Q : B → World → Type 0} {r : Result (A × World)} {k : A → M B}
      → Returns P r
      → ((a : A) (w : World) → P a w → Returns Q (k a w))
      → Returns Q (Memory.◌>>=◌ r (λ t. k t.0 t.1))
  bind (returns {a} {w} p) next = next a w p

  pub mono :
      {Q : A → World → Type 0} {r : Result (A × World)}
      → Returns P r
      → ((a : A) (w : World) → P a w → Q a w)
      → Returns Q r
  mono (returns {a} {w} p) weaken = returns (weaken a w p)

-- A loop whose body keeps an invariant, from round to round, ends with it.
pub for-Returns :
    (P : ℕ → World → Type 0) (n : ℕ) (body : ℕ → M (Unit {0}))
    → ((i : ℕ) (w : World) → i < n → P i w → Returns (λ _ w'. P (suc i) w') (body i w))
    → (k i : ℕ) → i + k ≡ n
    → (w : World) → P i w
    → Returns (λ _ w'. P n w') (for k i body w)
unfolding for
for-Returns P n body keep zero i e w p = let e' : n ≡ i = omega arith in returns (rw e' p)
for-Returns P n body keep (suc k) i e w p =
    bind (keep i w (omega arith) p)
      (λ _ w' p'. for-Returns P n body keep k (suc i) (omega arith) w' p')

-- A conditional entry in the log does not change what follows.
pub stamp :
    {Q : Unit {0} → World → Type 0} (b : Bool) (e : Event) (m : M (Unit {0})) (w : World)
    → ((l : List Event) → Returns Q (m (record w { log = l })))
    → Returns Q ((when b (note e) >> m) w)
stamp true e m w h = h (e ∷ w.log)
stamp false e m w h = h w.log
