-- ===== src/Stats.antt =====
-- src/hub/model.ts: `percentile`. The source computes ceil((p / 100) * n) - 1 in doubles; at the
-- percentages that the program asks for (50, 75, 95) this is the integer computed here.
use kube_diagnostics_mcp.Common.{
  ℕ, ◌+◌, ◌-◌, ◌*◌, ◌/◌, ◌≤◌, min, max, ◌≡◌, refl, List, [], ◌∷◌, arith, suc, zero, length, get_or,
  last_or, All, IsSorted,
}

abbrev pub rank : ℕ → ℕ → ℕ
rank size p = min (size - 1) (max 0 ((p * size + 99) / 100 - 1))

unfoldable pub percentile : List ℕ → ℕ → ℕ
percentile [] p = 0
percentile (a ∷ l) p = get_or (a ∷ l) (rank (length (a ∷ l)) p) 0

get_or-le-get_or :
    (l : List ℕ) (i j : ℕ) → IsSorted l → i ≤ j → suc j ≤ length l → get_or l i 0 ≤ get_or l j 0
get_or-le-get_or [] i j s h k = absurd (omega arith)
get_or-le-get_or (a ∷ l) zero zero s h k = omega arith
get_or-le-get_or (a ∷ l) zero (suc j) s h k = All-get_or l j s.0 (omega arith)
  where
    All-get_or : (l : List ℕ) (j : ℕ) → All (λ b. a ≤ b) l → suc j ≤ length l → a ≤ get_or l j 0
    All-get_or [] j h k = absurd (omega arith)
    All-get_or (b ∷ l) zero h k = h.0
    All-get_or (b ∷ l) (suc j) h k = All-get_or l j h.1 (omega arith)
get_or-le-get_or (a ∷ l) (suc i) zero s h k = absurd (omega arith)
get_or-le-get_or (a ∷ l) (suc i) (suc j) s h k =
    get_or-le-get_or l i j s.1 (omega arith) (omega arith)

last_or-get_or : (a : ℕ) (l : List ℕ) (d : ℕ) → last_or (a ∷ l) d ≡ get_or (a ∷ l) (length l) 0
last_or-get_or a [] d = refl
last_or-get_or a (b ∷ l) d = last_or-get_or b l a

-- In a sorted list a higher percentile is no smaller.
pub percentile_mono : (l : List ℕ) (p q : ℕ) → IsSorted l → p ≤ q → percentile l p ≤ percentile l q
unfolding percentile
percentile_mono [] p q s h = omega arith
percentile_mono (a ∷ l) p q s h =
    get_or-le-get_or (a ∷ l) (rank (length (a ∷ l)) p) (rank (length (a ∷ l)) q) s (grind arith)
      (omega arith)

-- No percentile exceeds the last element.
pub percentile-le-last_or : (l : List ℕ) (p : ℕ) → IsSorted l → percentile l p ≤ last_or l 0
unfolding percentile
percentile-le-last_or [] p s = omega arith
percentile-le-last_or (a ∷ l) p s =
    rw (last_or-get_or a l 0)
      (get_or-le-get_or (a ∷ l) (rank (length (a ∷ l)) p) (length l) s (omega arith) (omega arith))
