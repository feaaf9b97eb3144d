-- ===== src/Strings/Laws.antt =====
-- What the string methods keep.
use mathlib.Core.List.{append_assoc, append-nil}
use kube_diagnostics_mcp.Common.{
  ℕ, ◌≤◌, ◌≡◌, refl, ap, ◌∙◌, true, false, List, [], ◌∷◌, ◌++◌, arith, Text, All, length, drop,
  ◌==◌,
}
use kube_diagnostics_mcp.Strings.{starts_with, until, split, split_from}

-- `until` is the first part of `split`.
pub length-until : (sep : ℕ) (s : Text) → length (until sep s) ≤ length s
unfolding until
length-until sep [] = omega arith
length-until sep (c ∷ s) = ground (arith, length-until sep s)

-- A text that starts with `p` is `p` and the rest.
pub starts_with-append : (p s : Text) → starts_with p (p ++ s) ≡ true
unfolding starts_with
starts_with-append [] s = refl
starts_with-append (c ∷ p) s = ground (arith, starts_with-append p s)

pub starts_with_split : (p s : Text) → starts_with p s ≡ true → s ≡ p ++ drop (length p) s
unfolding starts_with drop
starts_with_split [] [] h = refl
starts_with_split [] (c ∷ s) h = refl
starts_with_split (c ∷ p) [] h = absurd (ground arith)
starts_with_split (c ∷ p) (d ∷ s) h = ground (arith, starts_with_split p s)

module _ (sep : ℕ) where
  -- No character of the text is the separator.
  abbrev pub Without : Text → Type 0
  Without = All (λ c. (c == sep) ≡ false)

  split_from_rest : (cur s : Text) → Without s → split_from sep cur s ≡ (cur ++ s) ∷ []
  unfolding split_from
  split_from_rest cur [] h = rw append-nil
  split_from_rest cur (c ∷ s) h = rw h.0 (
      split_from_rest (cur ++ c ∷ []) s h.1
      ∙ ap (λ (t : Text). t ∷ []) (append_assoc cur (c ∷ []) s))

  split_from_part :
      (cur s t : Text)
      → Without s
      → split_from sep cur (s ++ sep ∷ t) ≡ (cur ++ s) ∷ split_from sep [] t
  unfolding split_from
  split_from_part cur [] t h = ground (arith, append-nil cur)
  split_from_part cur (c ∷ s) t h = rw h.0 (
      split_from_part (cur ++ c ∷ []) s t h.1
      ∙ ap (λ (u : Text). u ∷ split_from sep [] t) (append_assoc cur (c ∷ []) s))

  -- Two texts with the separator between them are split into the two.
  pub split-two : (s t : Text) → Without s → Without t → split sep (s ++ sep ∷ t) ≡ s ∷ t ∷ []
  unfolding split
  split-two s t h k =
      split_from_part [] s t h ∙ ap (λ (l : List Text). s ∷ l) (split_from_rest [] t k)
