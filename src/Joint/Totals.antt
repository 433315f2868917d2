-- ===== src/Joint/Totals.antt =====
-- The sum of a measure over the first processes of a family.
use mpidt_benchmark.Base.{
  ℕ, zero, suc, ◌+◌, ◌*◌, ◌≤◌, ◌<◌, ◌≡◌, refl, ap, arith, dec_lt, eq→==, ne→==,
}
use mpidt_benchmark.Joint.{update}

module _ {A : Type 0} (g : A → ℕ) where
  pub total : ℕ → (ℕ → A) → ℕ
  total zero p = 0
  total (suc n) p = total n p + g (p n)

  total-update_of_le :
      (n : ℕ) (p : ℕ → A) (i : ℕ) (s : A) → n ≤ i → total n (update p i s) ≡ total n p
  unfolding total
  total-update_of_le zero p i s h = refl
  total-update_of_le (suc n) p i s h =
      rw (ne→== n i (omega arith)) (omega (arith, total-update_of_le n p i s (omega arith)))

  -- A step of one process adds one to the total.
  pub total-update :
      (n : ℕ) (p : ℕ → A) (i : ℕ) (s : A)
      → i < n
      → g s ≡ suc (g (p i))
      → total n (update p i s) ≡ suc (total n p)
  unfolding total
  total-update zero p i s lt e = absurd (omega arith)
  total-update (suc n) p i s lt e = elim (dec_lt i n) [
    | yes below ↦ rw (ne→== n i (omega arith)) (omega (arith, total-update n p i s below e))
    | no last ↦
        let at : n ≡ i = omega arith in
        let same : g (p n) ≡ g (p i) = ap (λ j. g (p j)) at in
        rw (eq→== n i at) (omega (arith, total-update_of_le n p i s (omega arith)))
  ]

  pub total-le : (n b : ℕ) (p : ℕ → A) → ((i : ℕ) → i < n → g (p i) ≤ b) → total n p ≤ n * b
  unfolding total
  total-le zero b p h = omega arith
  total-le (suc n) b p h =
      let below = total-le n b p (λ i lt. h i (omega arith)) in
      let last = h n (omega arith) in grind arith
