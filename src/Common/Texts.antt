-- ===== src/Common/Texts.antt =====
-- JavaScript strings as lists of UTF-16 code units. Literals are written `txt "…"` and are ASCII.
use Prim.Native.Char.{code}
use Prim.Native.Nat.{ℕ}
use Prim.Native.String.{String}
use mathlib.Core.Path.{◌≡◌, refl, sym, ◌∙◌}
use mathlib.Core.Logic.{◌↔◌}
use mathlib.Core.Bool.{Bool, true, false, ◌&&◌, ◌||◌}
use mathlib.Core.List.{List, [], ◌∷◌, ◌++◌}
use native.Mathlib.Omega.{arith}
use kube_diagnostics_mcp.Common.Lists.{any, any_iff, Any}
use kube_diagnostics_mcp.Common.Tests.{◌==◌}

abbrev pub Text : Type 0
Text = List ℕ

unfoldable pub txt : String → Text
txt String.[] = []
txt (String.◌∷◌ c s) = code c ∷ txt s

abbrev pub push : Text → ℕ → Text
push s c = s ++ c ∷ []

-- `a === b` on strings
unfoldable pub same : Text → Text → Bool
same [] [] = true
same (a ∷ s) (b ∷ t) = a == b && same s t
same _ _ = false

same→eq : (s t : Text) → same s t ≡ true → s ≡ t
unfolding same
same→eq [] [] h = refl
same→eq (a ∷ s) (b ∷ t) h = ground (arith, same→eq s t)
same→eq [] (b ∷ t) h = absurd (ground arith)
same→eq (a ∷ s) [] h = absurd (ground arith)

pub same_refl : (s : Text) → same s s ≡ true
unfolding same
same_refl [] = refl
same_refl (a ∷ s) = ground (arith, same_refl s)

pub same_iff : (s t : Text) → (same s t ≡ true) ↔ (s ≡ t)
same_iff s t = (same→eq s t, λ e. rw e (same_refl t))

pub same_trans : (r s t : Text) → same r s ≡ true → same s t ≡ true → same r t ≡ true
same_trans r s t h k = (same_iff r t).1 ((same_iff r s).0 h ∙ (same_iff s t).0 k)

-- `a.includes(x)` on a list of strings
unfoldable pub includes : Text → List Text → Bool
includes x [] = false
includes x (a ∷ l) = same a x || includes x l

includes-any : (x : Text) (l : List Text) → includes x l ≡ any (λ a. same a x) l
unfolding includes any
includes-any x [] = refl
includes-any x (a ∷ l) = ground (arith, includes-any x l)

pub includes_iff : (x : Text) (l : List Text) → (includes x l ≡ true) ↔ Any (λ a. a ≡ x) l
includes_iff x l =
    let found = any_iff (λ a. same a x) (λ a. same_iff a x) l in
    (λ h. found.0 (sym (includes-any x l) ∙ h), λ h. includes-any x l ∙ found.1 h)

abbrev pub is_empty : Text → Bool
is_empty [] = true
is_empty (c ∷ s) = false
