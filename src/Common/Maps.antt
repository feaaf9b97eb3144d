-- ===== src/Common/Maps.antt =====
-- `Map` and object dictionaries with string keys, as association lists in insertion order: a write
-- to a present key keeps its place.
use Prim.Native.Nat.{◌+◌, ◌≤◌}
use mathlib.Core.Path.{◌≡◌, refl}
use mathlib.Core.Logic.{inl, inr}
use mathlib.Core.Bool.{Bool}
use mathlib.Core.Option.{Option, none, some}
use mathlib.Core.List.{List, [], ◌∷◌}
use native.Mathlib.Omega.{arith}
use kube_diagnostics_mcp.Common.Tests.{if◌then◌else◌, is_some, Bool-cases}
use kube_diagnostics_mcp.Common.Lists.{All, length}
use kube_diagnostics_mcp.Common.Texts.{Text, same, same_iff}

abbrev pub Map {ℓ} : Type ℓ → Type ℓ
Map V = List (Text × V)

module _ {ℓ} {V : Type ℓ} where
  unfoldable pub get : Text → Map V → Option V
  get k [] = none
  get k ((j, v) ∷ m) = if same j k then some v else get k m

  unfoldable pub put : Text → V → Map V → Map V
  put k v [] = (k, v) ∷ []
  put k v ((j, w) ∷ m) = if same j k then (j, v) ∷ m else (j, w) ∷ put k v m

  abbrev pub has : Text → Map V → Bool
  has k m = is_some (get k m)

  -- `m.delete(k)`
  unfoldable pub remove : Text → Map V → Map V
  remove k [] = []
  remove k ((j, v) ∷ m) = if same j k then m else (j, v) ∷ remove k m

  pub get-put :
      (k j : Text) (v : V) (m : Map V) → get j (put k v m) ≡ (if same k j then some v else get j m)
  unfolding get put
  get-put k j v [] = refl
  get-put k j v ((i, w) ∷ m) =
      ground (arith, same_iff k j, same_iff i k, same_iff i j, get-put k j v m)

  -- A new key makes the map one longer.
  pub length-put :
      (k : Text) (v : V) (m : Map V)
      → length (put k v m) ≡ (if has k m then length m else length m + 1)
  unfolding get put
  length-put k v [] = omega arith
  length-put k v ((j, w) ∷ m) = ground (arith, length-put k v m)

  pub length-remove : (k : Text) (m : Map V) → length (remove k m) ≤ length m
  unfolding remove
  length-remove k [] = omega arith
  length-remove k ((j, w) ∷ m) = ground (arith, length-remove k m)

-- `P` holds of every value.
abbrev pub Each {ℓ κ} : {V : Type ℓ} → (V → Type κ) → Map V → Type κ
Each P m = All (λ e. P e.1) m

module _ {ℓ κ} {V : Type ℓ} (P : V → Type κ) where
  pub Each-get : (k : Text) (m : Map V) {v : V} → Each P m → get k m ≡ some v → P v
  unfolding get
  Each-get k [] h e = absurd (ground arith)
  Each-get k ((j, w) ∷ m) {v} (p, h) e = elim (Bool-cases (same j k)) [
    | inl found ↦ ground arith
    | inr other ↦ Each-get k m h (rw other at e)
  ]

  pub Each-put : (k : Text) (v : V) (m : Map V) → Each P m → P v → Each P (put k v m)
  unfolding put
  Each-put k v [] h p = (p, tt)
  Each-put k v ((j, w) ∷ m) (q, h) p = elim (Bool-cases (same j k)) [
    | inl found ↦ rw found (p, h)
    | inr other ↦ rw other (q, Each-put k v m h p)
  ]

  pub Each-remove : (k : Text) (m : Map V) → Each P m → Each P (remove k m)
  unfolding remove
  Each-remove k [] h = tt
  Each-remove k ((j, w) ∷ m) (q, h) = elim (Bool-cases (same j k)) [
    | inl found ↦ rw found h
    | inr other ↦ rw other (q, Each-remove k m h)
  ]

pub Each-mono {ℓ κ} :
    {V : Type ℓ} (P Q : V → Type κ) → ((v : V) → P v → Q v) → (m : Map V) → Each P m → Each Q m
Each-mono P Q f [] h = tt
Each-mono P Q f ((k, v) ∷ m) (p, h) = (f v p, Each-mono P Q f m h)
