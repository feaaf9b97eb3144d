-- ===== src/Common/Lists.antt =====
-- Lists by native numbers, and the array methods that the program calls.
use Prim.Native.Nat.{ℕ, zero, suc, ◌+◌, ◌-◌, ◌≤◌, min}
use mathlib.Core.Path.{◌≡◌, refl, ap, subst}
use mathlib.Core.Logic.{◌⊎◌, ◌↔◌, inl, inr}
use mathlib.Core.Bool.{Bool, true, false, ◌&&◌, ◌||◌}
use mathlib.Core.Option.{Option, none, some}
use mathlib.Core.List.{List, [], ◌∷◌, ◌++◌}
use native.Mathlib.Omega.{arith}
use kube_diagnostics_mcp.Common.Tests.{if◌then◌else◌, Bool-cases, or-true}

-- `P` holds of every element.
abbrev pub All {ℓ κ} : {A : Type ℓ} → (A → Type κ) → List A → Type κ
All P [] = Unit
All P (x ∷ xs) = P x × All P xs

-- `P` holds of some element.
abbrev pub Any {ℓ} : {A : Type ℓ} → (A → Type 0) → List A → Type 0
Any P [] = ⊥
Any P (x ∷ xs) = P x ⊎ Any P xs

module _ {ℓ} {A : Type ℓ} where
  abbrev pub length : List A → ℕ
  length [] = 0
  length (x ∷ xs) = suc (length xs)

  unfoldable pub take : ℕ → List A → List A
  take (suc n) (x ∷ xs) = x ∷ take n xs
  take _ _ = []

  unfoldable pub drop : ℕ → List A → List A
  drop (suc n) (x ∷ xs) = drop n xs
  drop _ l = l

  -- `l.slice(-n)`, for `n` at least 1
  unfoldable pub take_last : ℕ → List A → List A
  unfolding drop
  take_last n l = drop (length l - n) l

  unfoldable pub filter : (A → Bool) → List A → List A
  filter p [] = []
  filter p (x ∷ xs) = let rest = filter p xs in if p x then x ∷ rest else rest

  unfoldable pub find : (A → Bool) → List A → Option A
  find p [] = none
  find p (x ∷ xs) = if p x then some x else find p xs

  unfoldable pub any : (A → Bool) → List A → Bool
  any p [] = false
  any p (x ∷ xs) = p x || any p xs

  unfoldable pub all : (A → Bool) → List A → Bool
  all p [] = true
  all p (x ∷ xs) = p x && all p xs

  abbrev pub get_or : List A → ℕ → A → A
  get_or [] i d = d
  get_or (x ∷ xs) zero d = x
  get_or (x ∷ xs) (suc i) d = get_or xs i d

  -- `l[l.length - 1] ?? d`
  abbrev pub last_or : List A → A → A
  last_or [] d = d
  last_or (x ∷ xs) d = last_or xs x

  pub length-append : (xs ys : List A) → length (xs ++ ys) ≡ length xs + length ys
  length-append [] ys = omega arith
  length-append (x ∷ xs) ys = omega (arith, length-append xs ys)

  pub length-take : (n : ℕ) (l : List A) → length (take n l) ≡ min n (length l)
  unfolding take
  length-take (suc n) (x ∷ xs) = omega (arith, length-take n xs)
  length-take _ _ = omega arith

  pub length-drop : (n : ℕ) (l : List A) → length (drop n l) ≡ length l - n
  unfolding drop
  length-drop (suc n) (x ∷ xs) = omega (arith, length-drop n xs)
  length-drop _ _ = omega arith

  pub take-append-drop : (n : ℕ) (l : List A) → take n l ++ drop n l ≡ l
  unfolding take drop
  take-append-drop (suc n) (x ∷ xs) = ap (◌∷◌ x) (take-append-drop n xs)
  take-append-drop _ _ = refl

  pub length-filter : (p : A → Bool) (l : List A) → length (filter p l) ≤ length l
  unfolding filter
  length-filter p [] = omega arith
  length-filter p (x ∷ xs) = ground (arith, length-filter p xs)

  some_same : {w v : A} → ◌≡◌ {A = Option A} (some w) (some v) → v ≡ w
  some_same h = cc

  pub Any-find :
      (Q : A → Type 0) (p : A → Bool) (l : List A) {a : A} → find p l ≡ some a → Q a → Any Q l
  unfolding find
  Any-find Q p [] h q = absurd (ground arith)
  Any-find Q p (x ∷ xs) {a} h q = elim (Bool-cases (p x)) [
    | inl here ↦ inl (subst Q (some_same (rw here at h)) q)
    | inr later ↦ inr (Any-find Q p xs (rw later at h) q)
  ]

  pub find-true : (p : A → Bool) (l : List A) {a : A} → find p l ≡ some a → p a ≡ true
  unfolding find
  find-true p [] h = absurd (ground arith)
  find-true p (x ∷ xs) {a} h = elim (Bool-cases (p x)) [
    | inl here ↦ ground arith
    | inr later ↦ find-true p xs (rw later at h)
  ]

module _ {ℓ κ} {A : Type ℓ} (P : A → Type κ) where
  pub All-append : (xs ys : List A) → All P xs → All P ys → All P (xs ++ ys)
  All-append [] ys h k = k
  All-append (x ∷ xs) ys (p, h) k = (p, All-append xs ys h k)

  pub All-append_left : (xs ys : List A) → All P (xs ++ ys) → All P xs
  All-append_left [] ys h = tt
  All-append_left (x ∷ xs) ys (p, h) = (p, All-append_left xs ys h)

  pub All-append_right : (xs ys : List A) → All P (xs ++ ys) → All P ys
  All-append_right [] ys h = h
  All-append_right (x ∷ xs) ys (p, h) = All-append_right xs ys h

  pub All-drop : (n : ℕ) (l : List A) → All P l → All P (drop n l)
  unfolding drop
  All-drop (suc n) (x ∷ xs) (p, h) = All-drop n xs h
  All-drop _ _ h = h

  pub All-take : (n : ℕ) (l : List A) → All P l → All P (take n l)
  unfolding take
  All-take (suc n) (x ∷ xs) (p, h) = (p, All-take n xs h)
  All-take _ _ _ = tt

  pub All-find : (p : A → Bool) (l : List A) {a : A} → All P l → find p l ≡ some a → P a
  unfolding find
  All-find p [] h e = absurd (ground arith)
  All-find p (x ∷ xs) {a} (px, h) e = elim (Bool-cases (p x)) [
    | inl yes_here ↦ ground arith
    | inr not_here ↦ All-find p xs h (rw not_here at e)
  ]

module _ {ℓ} {A : Type ℓ} {P : A → Type 0} where
  -- A test of the elements finds one exactly if what it tests holds of one.
  pub any_iff :
      (p : A → Bool) → ((a : A) → (p a ≡ true) ↔ P a) → (l : List A) → (any p l ≡ true) ↔ Any P l
  unfolding any
  any_iff p f [] = (λ h. absurd (ground arith), λ h. absurd h)
  any_iff p f (a ∷ l) = (
    λ h. elim (or-true (p a) (any p l) h) [
      | inl this ↦ inl ((f a).0 this)
      | inr later ↦ inr ((any_iff p f l).0 later)
    ],
    λ h. elim h [
      | inl this ↦ let q = (f a).1 this in ground (arith, q)
      | inr later ↦ let q = (any_iff p f l).1 later in ground (arith, q)
    ],
  )

  pub Any-map : {Q : A → Type 0} → ((a : A) → P a → Q a) → (l : List A) → Any P l → Any Q l
  Any-map f [] h = absurd h
  Any-map f (a ∷ l) (inl this) = inl (f a this)
  Any-map f (a ∷ l) (inr later) = inr (Any-map f l later)

pub any-filter {ℓ} :
    {A : Type ℓ} (p q : A → Bool) (l : List A) → any q (filter p l) ≡ any (λ a. p a && q a) l
unfolding any filter
any-filter p q [] = refl
any-filter p q (a ∷ l) = ground (arith, any-filter p q l)
