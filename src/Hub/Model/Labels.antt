-- ===== src/Hub/Model/Labels.antt =====
-- src/hub/model.ts: which labels a selector matches.
use mathlib.Core.Path.{subst}
use kube_diagnostics_mcp.Common.{
  and-true, ◌≡◌, ◌≢◌, refl, sym, ◌↔◌, true, Option, none, some, [], ◌∷◌, all, All, Text, Map, get,
  same_iff,
}
use kube_diagnostics_mcp.Hub.Model.Workload.{holds_text, labels_match}

some_same : {A : Type 0} {w v : A} → ◌≡◌ {A = Option A} (some w) (some v) → w ≡ v
some_same h = cc

pub holds_text_iff : (o : Option Text) (v : Text) → (holds_text o v ≡ true) ↔ (o ≡ some v)
holds_text_iff none v = (λ h. cc, λ h. cc)
holds_text_iff (some w) v = (λ h. rw ((same_iff w v).0 h), λ h. (same_iff w v).1 (some_same h))

pub all_iff :
    (labels m : Map Text)
    → (all (λ e. holds_text (get e.0 labels) e.1) m ≡ true) ↔ All (λ e. get e.0 labels ≡ some e.1) m
unfolding all
all_iff labels [] = (λ h. tt, λ h. refl)
all_iff labels ((j, v) ∷ m) = (
  λ h.
      let both =
        and-true (holds_text (get j labels) v) (all (λ e. holds_text (get e.0 labels) e.1) m) h in
      ((holds_text_iff (get j labels) v).0 both.0, (all_iff labels m).0 both.1),
  λ h. rw ((holds_text_iff (get j labels) v).1 h.0, (all_iff labels m).1 h.1),
)

all_of_same :
    (m l n k : Map Text)
    → n ≡ m
    → k ≡ l
    → All (λ e. get e.0 k ≡ some e.1) n
    → all (λ e. holds_text (get e.0 l) e.1) m ≡ true
all_of_same m l n k p q a = (all_iff l m).1 (
    subst (λ x. All (λ e. get e.0 l ≡ some e.1) x) p
      (subst (λ x. All (λ e. get e.0 x ≡ some e.1) n) q a))

-- A pod's labels match a selector exactly if the selector is there and not empty, the pod has
-- labels, and each entry of the selector is one of them.
pub labels_match_iff :
    (labels selector : Option (Map Text))
    → (labels_match labels selector ≡ true) ↔ (
        (m : Map Text) × (l : Map Text) × (selector ≡ some m)
        × (m ≢ [])
        × (labels ≡ some l)
        × All (λ e. get e.0 l ≡ some e.1) m)
unfolding labels_match
labels_match_iff labels none = (λ h. cc, λ h. cc)
labels_match_iff labels (some []) = (λ h. cc, λ h. absurd (h.3 (sym (some_same h.2))))
labels_match_iff none (some (e ∷ m)) = (λ h. cc, λ h. cc)
labels_match_iff (some l) (some (e ∷ m)) = (
  λ h. (e ∷ m, l, refl, λ n. cc, refl, (all_iff l (e ∷ m)).0 h),
  λ h. all_of_same (e ∷ m) l h.0 h.1 (sym (some_same h.2)) (sym (some_same h.4)) h.5,
)

-- A pod with these labels belongs to a selector: it is there and not empty, the pod has labels, and
-- each entry of the selector is one of them.
unfoldable pub Selects : Option (Map Text) → Option (Map Text) → Type 0
Selects selector labels =
    (m : Map Text) × (l : Map Text) × (selector ≡ some m)
    × (m ≢ [])
    × (labels ≡ some l)
    × All (λ e. get e.0 l ≡ some e.1) m
