-- ===== src/Common/Sorting.antt =====
-- `Array.prototype.sort`, which is stable: insertion from the right into a sorted tail. `before a b`
-- says that the comparator puts `b` strictly before `a`.
use Prim.Native.Nat.{ℕ, ◌+◌, ◌≤◌}
use mathlib.Core.Path.{◌≡◌, refl}
use mathlib.Core.Logic.{inl, inr}
use mathlib.Core.Bool.{Bool}
use mathlib.Core.List.{List, [], ◌∷◌}
use native.Mathlib.Omega.{arith}
use kube_diagnostics_mcp.Common.Tests.{ltb, if◌then◌else◌, Bool-cases}
use kube_diagnostics_mcp.Common.Lists.{All, length}

module _ {ℓ} {A : Type ℓ} (after : A → A → Bool) where
  unfoldable pub insert_by : A → List A → List A
  insert_by a [] = a ∷ []
  insert_by a (b ∷ l) = if after a b then b ∷ insert_by a l else a ∷ b ∷ l

  unfoldable pub sort_by : List A → List A
  unfolding insert_by
  sort_by [] = []
  sort_by (a ∷ l) = insert_by a (sort_by l)

  pub length-insert_by : (a : A) (l : List A) → length (insert_by a l) ≡ length l + 1
  unfolding insert_by
  length-insert_by a [] = omega arith
  length-insert_by a (b ∷ l) = ground (arith, length-insert_by a l)

  pub length-sort_by : (l : List A) → length (sort_by l) ≡ length l
  unfolding sort_by
  length-sort_by [] = refl
  length-sort_by (a ∷ l) = omega (arith, length-insert_by a (sort_by l), length-sort_by l)

-- `sort((a, b) => a - b)` and `sort((a, b) => b.k - a.k)`
abbrev pub ascending : ℕ → ℕ → Bool
ascending a b = ltb b a

abbrev pub descending {ℓ} : {A : Type ℓ} → (A → ℕ) → A → A → Bool
descending key a b = ltb (key a) (key b)

module _ {ℓ κ} {A : Type ℓ} (after : A → A → Bool) (P : A → Type κ) where
  pub All-insert_by : (a : A) (l : List A) → P a → All P l → All P (insert_by after a l)
  unfolding insert_by
  All-insert_by a [] p h = (p, tt)
  All-insert_by a (b ∷ l) p (q, h) = elim (Bool-cases (after a b)) [
    | inl later ↦ rw later (q, All-insert_by a l p h)
    | inr here ↦ rw here (p, (q, h))
  ]

  pub All-sort_by : (l : List A) → All P l → All P (sort_by after l)
  unfolding sort_by
  All-sort_by [] h = tt
  All-sort_by (a ∷ l) (p, h) = All-insert_by a (sort_by after l) p (All-sort_by l h)

-- Each element is at most all that follow.
abbrev pub IsSorted : List ℕ → Type 0
IsSorted [] = Unit
IsSorted (a ∷ l) = All (λ b. a ≤ b) l × IsSorted l

All-le : {a b : ℕ} (l : List ℕ) → a ≤ b → All (λ c. b ≤ c) l → All (λ c. a ≤ c) l
All-le [] h k = tt
All-le (c ∷ l) h (p, k) = (omega arith, All-le l h k)

insert_by-IsSorted : (a : ℕ) (l : List ℕ) → IsSorted l → IsSorted (insert_by ascending a l)
unfolding insert_by
insert_by-IsSorted a [] h = (tt, tt)
insert_by-IsSorted a (b ∷ l) (p, h) = elim (Bool-cases (ltb b a)) [
  | inl later ↦
      rw later (All-insert_by ascending (λ c. b ≤ c) a l (ground arith) p, insert_by-IsSorted a l h)
  | inr here ↦ rw here ((ground arith, All-le l (ground arith) p), (p, h))
]

pub sort_by-IsSorted : (l : List ℕ) → IsSorted (sort_by ascending l)
unfolding sort_by
sort_by-IsSorted [] = tt
sort_by-IsSorted (a ∷ l) = insert_by-IsSorted a (sort_by ascending l) (sort_by-IsSorted l)
