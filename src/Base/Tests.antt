-- ===== src/Base/Tests.antt =====
-- Boolean tests on the native numbers, the conditional, and case splits that keep an equation.
use Prim.Native.Nat.{ℕ, zero, suc, ◌*◌, ◌≤◌, ◌<◌, compare, Ordering}
use mathlib.Core.Path.{◌≡◌, refl}
use mathlib.Core.Logic.{◌≢◌, ◌⊎◌, inl, inr}
use mathlib.Core.Bool.{Bool, true, false}
use native.Mathlib.Omega.{arith}
use native.Mathlib.Decide.{dec_lt}

abbrev pub ltb : ℕ → ℕ → Bool
ltb a b = elim (compare a b) [ Ordering.lt ↦ true | _ ↦ false ]

abbrev pub leb : ℕ → ℕ → Bool
leb a b = elim (compare a b) [ Ordering.gt ↦ false | _ ↦ true ]

infix 50 ◌==◌
abbrev pub ◌==◌ : ℕ → ℕ → Bool
a == b = elim (compare a b) [ Ordering.eq ↦ true | _ ↦ false ]

infix 1 if◌then◌else◌
abbrev pub if◌then◌else◌ {ℓ} : {A : Type ℓ} → Bool → A → A → A
if true then x else y = x
if false then x else y = y

pub lt→ltb : (a b : ℕ) → a < b → ltb a b ≡ true
lt→ltb a b h = ground arith

pub le→leb : (a b : ℕ) → a ≤ b → leb a b ≡ true
le→leb a b h = ground arith

pub lt→not-leb : (a b : ℕ) → b < a → leb a b ≡ false
lt→not-leb a b h = ground arith

pub le→not-ltb : (a b : ℕ) → b ≤ a → ltb a b ≡ false
le→not-ltb a b h = ground arith

pub eq→== : (a b : ℕ) → a ≡ b → (a == b) ≡ true
eq→== a b h = ground arith

pub ne→== : (a b : ℕ) → a ≢ b → (a == b) ≡ false
ne→== a b h = ground arith

pub Bool-cases : (b : Bool) → (b ≡ true) ⊎ (b ≡ false)
Bool-cases true = inl refl
Bool-cases false = inr refl

pub mul_mono : (a b c : ℕ) → a ≤ b → a * c ≤ b * c
mul_mono a b c h = grind arith

-- Either all the first `n` values of `f` are above `s`, or one is not.
pub all_past : (n s : ℕ) (f : ℕ → ℕ) → ((i : ℕ) → i < n → s < f i) ⊎ ((i : ℕ) × (i < n) × (f i ≤ s))
all_past zero s f = inl (λ i lt. absurd (omega arith))
all_past (suc n) s f = elim (all_past n s f) [
  | inr (i, lt, le) ↦ inr (i, omega arith, le)
  | inl below ↦ elim (dec_lt s (f n)) [
    | no last ↦ inr (n, omega arith, omega arith)
    | yes past ↦ inl (λ i lt. elim (dec_lt i n) [
      | yes h ↦ below i h
      | no h ↦ let e : i ≡ n = omega arith in rw e past
    ])
  ]
]
