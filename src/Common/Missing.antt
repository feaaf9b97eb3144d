-- ===== src/Common/Missing.antt =====
-- A map whose keys come from a fixed list is no longer than the list: each write of a new key uses
-- up one that was missing.
use Prim.Native.Nat.{ℕ, suc, ◌+◌, ◌≤◌}
use mathlib.Core.Path.{◌≡◌, refl}
use mathlib.Core.Logic.{inl, inr}
use mathlib.Core.Bool.{true, false}
use mathlib.Core.List.{List, [], ◌∷◌}
use native.Mathlib.Omega.{arith}
use kube_diagnostics_mcp.Common.Tests.{if◌then◌else◌, Bool-cases}
use kube_diagnostics_mcp.Common.Lists.{length}
use kube_diagnostics_mcp.Common.Maps.{Map, get, put, has, get-put, length-put}
use kube_diagnostics_mcp.Common.Texts.{Text, same, same_iff, same_refl, includes}

module _ {ℓ} {V : Type ℓ} where
  unfoldable pub missing : List Text → Map V → ℕ
  missing [] m = 0
  missing (k ∷ keys) m = (if has k m then 0 else 1) + missing keys m

  pub has-put :
      (k j : Text) (v : V) (m : Map V) → has j (put k v m) ≡ (if same k j then true else has j m)
  has-put k j v m = rw get-put (ground arith)

  pub missing-put_le :
      (keys : List Text) (k : Text) (v : V) (m : Map V) → missing keys (put k v m) ≤ missing keys m
  unfolding missing
  missing-put_le [] k v m = omega arith
  missing-put_le (j ∷ keys) k v m = ground (arith, missing-put_le keys k v m, has-put k j v m)

  pub missing-put :
      (keys : List Text) (k : Text) (v : V) (m : Map V)
      → includes k keys ≡ true
      → has k m ≡ false
      → suc (missing keys (put k v m)) ≤ missing keys m
  unfolding missing includes
  missing-put [] k v m i h = absurd (ground arith)
  missing-put (j ∷ keys) k v m i h = ground (
    arith,
    missing-put keys k v m,
    missing-put_le keys k v m,
    has-put k j v m,
    same_iff j k,
    same_refl k,
  )

  -- Counted so, the bound is kept by every write under a listed key.
  pub put_within :
      (keys : List Text) (k : Text) (v : V) (m : Map V)
      → includes k keys ≡ true
      → length m + missing keys m ≤ length keys
      → length (put k v m) + missing keys (put k v m) ≤ length keys
  put_within keys k v m i h = elim (Bool-cases (has k m)) [
    | inl old ↦
        let size = length-put k v m in rw (size, old) (omega (arith, missing-put_le keys k v m))
    | inr new ↦
        let size = length-put k v m in rw (size, new) (omega (arith, missing-put keys k v m i new))
  ]

pub missing-empty {ℓ} : (V : Type ℓ) (keys : List Text) → missing {V = V} keys [] ≡ length keys
unfolding missing get
missing-empty V [] = refl
missing-empty V (k ∷ keys) = omega (arith, missing-empty V keys)
