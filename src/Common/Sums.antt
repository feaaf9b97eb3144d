-- ===== src/Common/Sums.antt =====
-- Sums over maps, lists that a test keeps, and lists in descending order.
use Prim.Native.Nat.{ℕ, suc, ◌+◌, ◌≤◌}
use mathlib.Core.Path.{◌≡◌, refl}
use mathlib.Core.Logic.{inl, inr}
use mathlib.Core.Bool.{Bool, true}
use mathlib.Core.Option.{Option, none, some}
use mathlib.Core.List.{List, [], ◌∷◌, map}
use native.Mathlib.Omega.{arith}
use kube_diagnostics_mcp.Common.Tests.{Bool-cases, or_else, ltb}
use kube_diagnostics_mcp.Common.Lists.{All, filter, take}
use kube_diagnostics_mcp.Common.Maps.{Map, get, put}
use kube_diagnostics_mcp.Common.Sorting.{sort_by, insert_by, descending, All-insert_by}
use kube_diagnostics_mcp.Common.Texts.{Text, same}

module _ {ℓ} {V : Type ℓ} (f : V → ℕ) where
  -- The sum of `f` over the values of a map.
  abbrev pub sum_of : Map V → ℕ
  sum_of [] = 0
  sum_of ((k, v) ∷ m) = f v + sum_of m

  abbrev pub at_key : Option V → ℕ
  at_key none = 0
  at_key (some v) = f v

  -- A write replaces what the key had.
  pub sum_of-put :
      (k : Text) (v : V) (m : Map V) → sum_of (put k v m) + at_key (get k m) ≡ sum_of m + f v
  unfolding get put
  sum_of-put k v [] = omega arith
  sum_of-put k v ((j, w) ∷ m) = elim (Bool-cases (same j k)) [
    | inl here ↦ rw here (omega arith)
    | inr other ↦ rw other (omega (arith, sum_of-put k v m))
  ]

  at_key-or_else : (o : Option V) (z : V) → f z ≡ 0 → at_key o ≡ f (or_else o z)
  at_key-or_else none z h = omega arith
  at_key-or_else (some v) z h = refl

  -- Where the value at a key, or one that counts nothing, is replaced by one that counts `n` more,
  -- the sum grows by `n`.
  pub sum_of-update :
      (k : Text) (z v : V) (n : ℕ) (m : Map V)
      → f z ≡ 0
      → f v ≡ f (or_else (get k m) z) + n
      → sum_of (put k v m) ≡ sum_of m + n
  sum_of-update k z v n m zero_z grows =
      omega (arith, sum_of-put k v m, at_key-or_else (get k m) z zero_z)

-- `m[k] = (m[k] ?? 0) + n`
unfoldable pub add_to : ℕ → Text → Map ℕ → Map ℕ
add_to n k m = put k (or_else (get k m) 0 + n) m

pub sum_of-add_to :
    (n : ℕ) (k : Text) (m : Map ℕ) → sum_of (λ n. n) (add_to n k m) ≡ sum_of (λ n. n) m + n
unfolding add_to
sum_of-add_to n k m = sum_of-update (λ n. n) k 0 (or_else (get k m) 0 + n) n m refl refl

-- The sum of `f` over a list.
module _ {ℓ} {A : Type ℓ} (f : A → ℕ) where
  abbrev pub total_of : List A → ℕ
  total_of [] = 0
  total_of (a ∷ l) = f a + total_of l

  pub total_of-take : (n : ℕ) (l : List A) → total_of (take n l) ≤ total_of l
  unfolding take
  total_of-take (suc n) (a ∷ l) = omega (arith, total_of-take n l)
  total_of-take _ _ = omega arith

  total_of-insert_by :
      (after : A → A → Bool) (a : A) (l : List A)
      → total_of (insert_by after a l) ≡ f a + total_of l
  unfolding insert_by
  total_of-insert_by after a [] = omega arith
  total_of-insert_by after a (b ∷ l) = elim (Bool-cases (after a b)) [
    | inl later ↦ rw later (omega (arith, total_of-insert_by after a l))
    | inr here ↦ rw here (omega arith)
  ]

  pub total_of-sort_by :
      (after : A → A → Bool) (l : List A) → total_of (sort_by after l) ≡ total_of l
  unfolding sort_by
  total_of-sort_by after [] = omega arith
  total_of-sort_by after (a ∷ l) =
      omega (arith, total_of-insert_by after a (sort_by after l), total_of-sort_by after l)

module _ {ℓ κ} {A : Type ℓ} (P : A → Type κ) (p : A → Bool) where
  -- What is kept passes the test, and has what all have.
  pub All-filter : (l : List A) → All P l → All (λ a. P a × (p a ≡ true)) (filter p l)
  unfolding filter
  All-filter [] h = tt
  All-filter (a ∷ l) (pa, h) = elim (Bool-cases (p a)) [
    | inl kept ↦ rw kept ((pa, kept), All-filter l h)
    | inr dropped ↦ rw dropped (All-filter l h)
  ]

-- What holds of all that pass the test holds of all that are kept.
pub All-filter_of {ℓ κ} :
    {A : Type ℓ} (P : A → Type κ) (p : A → Bool)
    → ((a : A) → p a ≡ true → P a)
    → (l : List A) → All P (filter p l)
unfolding filter
All-filter_of P p f [] = tt
All-filter_of P p f (a ∷ l) = elim (Bool-cases (p a)) [
  | inl kept ↦ rw kept (f a kept, All-filter_of P p f l)
  | inr dropped ↦ rw dropped (All-filter_of P p f l)
]

pub All-map {ℓ κ μ} :
    {A : Type ℓ} {B : Type κ} (P : B → Type μ) (f : A → B) (l : List A)
    → All (λ a. P (f a)) l
    → All P (map f l)
All-map P f [] h = tt
All-map P f (a ∷ l) (p, h) = (p, All-map P f l h)

module _ {ℓ} {A : Type ℓ} (key : A → ℕ) where
  -- No element has a smaller key than one that follows.
  abbrev pub IsDescending : List A → Type 0
  IsDescending [] = Unit
  IsDescending (a ∷ l) = All (λ b. key b ≤ key a) l × IsDescending l

  All-ge :
      (a b : A) (l : List A)
      → key b ≤ key a
      → All (λ c. key c ≤ key b) l
      → All (λ c. key c ≤ key a) l
  All-ge a b [] h k = tt
  All-ge a b (c ∷ l) h (p, k) = (omega arith, All-ge a b l h k)

  insert_by-IsDescending :
      (a : A) (l : List A) → IsDescending l → IsDescending (insert_by (descending key) a l)
  unfolding insert_by
  insert_by-IsDescending a [] h = (tt, tt)
  insert_by-IsDescending a (b ∷ l) (p, h) = elim (Bool-cases (ltb (key a) (key b))) [
    | inl later ↦ rw later (
      All-insert_by (descending key) (λ c. key c ≤ key b) a l (ground arith) p,
      insert_by-IsDescending a l h,
    )
    | inr here ↦ rw here ((ground arith, All-ge a b l (ground arith) p), (p, h))
  ]

  pub sort_by-IsDescending : (l : List A) → IsDescending (sort_by (descending key) l)
  unfolding sort_by
  sort_by-IsDescending [] = tt
  sort_by-IsDescending (a ∷ l) =
      insert_by-IsDescending a (sort_by (descending key) l) (sort_by-IsDescending l)

  All-take_le :
      (a : A) (n : ℕ) (l : List A)
      → All (λ b. key b ≤ key a) l
      → All (λ b. key b ≤ key a) (take n l)
  unfolding take
  All-take_le a (suc n) (b ∷ l) (p, h) = (p, All-take_le a n l h)
  All-take_le a _ _ _ = tt

  pub take-IsDescending : (n : ℕ) (l : List A) → IsDescending l → IsDescending (take n l)
  unfolding take
  take-IsDescending (suc n) (b ∷ l) (p, h) = (All-take_le b n l p, take-IsDescending n l h)
  take-IsDescending _ _ _ = tt
