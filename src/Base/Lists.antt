-- ===== src/Base/Lists.antt =====
-- Lists measured and indexed by native numbers.
use Prim.Native.Nat.{ℕ, zero, suc}
use mathlib.Core.Path.{◌≡◌, refl, ap}
use mathlib.Core.List.{List, [], ◌∷◌, ◌++◌}
use mathlib.Core.Option.{Option, none, some}

module _ {ℓ} {A : Type ℓ} where
  abbrev pub length : List A → ℕ
  length [] = 0
  length (x ∷ xs) = suc (length xs)

  abbrev pub get_elem? : List A → ℕ → Option A
  get_elem? [] i = none
  get_elem? (x ∷ xs) zero = some x
  get_elem? (x ∷ xs) (suc i) = get_elem? xs i

  abbrev pub take : ℕ → List A → List A
  take zero xs = []
  take (suc n) [] = []
  take (suc n) (x ∷ xs) = x ∷ take n xs

  abbrev pub drop : ℕ → List A → List A
  drop zero xs = xs
  drop (suc n) [] = []
  drop (suc n) (x ∷ xs) = drop n xs

  -- `n` copies of the block `b` in front of `r`.
  unfoldable pub repeat_append : ℕ → List A → List A → List A
  repeat_append zero b r = r
  repeat_append (suc n) b r = b ++ repeat_append n b r

  -- An element that is repeated may as well stand behind the repetition.
  pub repeat_append-cons :
      (n : ℕ) (x : A) (r : List A)
      → repeat_append n (x ∷ []) (x ∷ r) ≡ x ∷ repeat_append n (x ∷ []) r
  unfolding repeat_append
  repeat_append-cons zero x r = refl
  repeat_append-cons (suc n) x r = ap (λ (l : List A). x ∷ l) (repeat_append-cons n x r)
