-- ===== src/Memory/Blit.antt =====
-- Laws of a copy between buffers: bounds, adjacent copies, and the bytes that it leaves.
use mpidt_benchmark.Base.{ℕ, ◌+◌, ◌-◌, ◌≤◌, ◌<◌, ◌≡◌, refl, true, arith, ap, fun_ext, sym, ◌∙◌}
use mathlib.Core.Path.{ap₂}
use mpidt_benchmark.Memory.{Region, ok, within, copied, blit, memcpy}

pub within-true :
    (r : Region) (p n : ℕ) → r.base ≤ p → p + n ≤ r.base + r.size → within r p n ≡ true
within-true r p n h k = ground arith

pub memcpy-ok :
    (d : Region) (p : ℕ) (s : Region) (q n : ℕ)
    → d.base ≤ p
    → p + n ≤ d.base + d.size
    → s.base ≤ q
    → q + n ≤ s.base + s.size
    → memcpy d p s q n ≡ ok (blit d p s q n)
unfolding memcpy
memcpy-ok d p s q n a b c e = ground arith

copied-copied :
    (d : ℕ → ℕ) (p : ℕ) (s : ℕ → ℕ) (q n m a : ℕ)
    → copied (copied d p s q n) (p + n) s (q + n) m a ≡ copied d p s q (n + m) a
copied-copied d p s q n m a = ground arith

-- Two copies of adjacent pieces are one copy.
pub blit-blit :
    (d : Region) (p : ℕ) (s : Region) (q n m : ℕ)
    → blit (blit d p s q n) (p + n) s (q + n) m ≡ blit d p s q (n + m)
unfolding blit
blit-blit d p s q n m =
    ap (λ (c : ℕ → ℕ). record d { cell = c }) (fun_ext (copied-copied d.cell p s.cell q n m))

-- The same with the addresses and lengths of the pieces known by equations.
pub blit-join :
    (d : Region) (p : ℕ) (s : Region) (q n m : ℕ) {p' q' l : ℕ}
    → p' ≡ p + n
    → q' ≡ q + n
    → l ≡ n + m
    → blit (blit d p s q n) p' s q' m ≡ blit d p s q l
blit-join d p s q n m ep eq el =
    ap₂ (λ (x y : ℕ). blit (blit d p s q n) x s y m) ep eq
    ∙ blit-blit d p s q n m
    ∙ ap (blit d p s q) (sym el)

pub blit-none : (d : Region) (p : ℕ) (s : Region) (q : ℕ) {n : ℕ} → n ≡ 0 → blit d p s q n ≡ d
unfolding blit
blit-none d p s q e = ap (λ (c : ℕ → ℕ). record d { cell = c }) (fun_ext (λ a. ground arith))

pub blit-base : (d : Region) (p : ℕ) (s : Region) (q n : ℕ) → (blit d p s q n).base ≡ d.base
unfolding blit
blit-base d p s q n = refl

pub blit-size : (d : Region) (p : ℕ) (s : Region) (q n : ℕ) → (blit d p s q n).size ≡ d.size
unfolding blit
blit-size d p s q n = refl

-- Inside the copied piece stand the bytes of the source.
pub blit-inside :
    (d : Region) (p : ℕ) (s : Region) (q n o : ℕ)
    → o < n
    → (blit d p s q n).cell (p + o) ≡ s.cell (q + o)
unfolding blit
blit-inside d p s q n o h =
    let e : p + o - p ≡ o = omega arith in ground (arith, ap (λ (t : ℕ). s.cell (q + t)) e)

-- Outside it nothing changes.
pub blit-below :
    (d : Region) (p : ℕ) (s : Region) (q n a : ℕ) → a < p → (blit d p s q n).cell a ≡ d.cell a
unfolding blit
blit-below d p s q n a h = ground arith

pub blit-above :
    (d : Region) (p : ℕ) (s : Region) (q n a : ℕ) → p + n ≤ a → (blit d p s q n).cell a ≡ d.cell a
unfolding blit
blit-above d p s q n a h = ground arith
