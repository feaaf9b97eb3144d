-- ===== src/Guard/Safe.antt =====
-- What an accepted name cannot do to the URL or path that it is put into.
use mathlib.Core.Path.{subst}
use kube_diagnostics_mcp.Common.{
  ℕ, ◌≡◌, ◌≢◌, refl, sym, ◌↔◌, ◌⊎◌, inl, inr, if◌then◌else◌, Bool, true, false, not, ◌&&◌, List, [],
  ◌∷◌, ◌==◌, arith, Text, All, length, includes, Result, ok, err, ensure, ensure-eq-ok, >>=-eq-ok,
}
use kube_diagnostics_mcp.Guard.{
  GuardError, not_allowed, dash_class, name_class, host_class, assert_namespace, assert_name,
  assert_container_name, assert_hostname, assert_namespace_allowed, assert_label_selector,
}
use kube_diagnostics_mcp.Guard.Names.{name_checks_iff, IsDnsLabel}
use kube_diagnostics_mcp.Regex.Anchored.{IsEdged, Head}
use kube_diagnostics_mcp.Regex.Classes.{is_lower_alnum, is_alnum}

-- No separator of a path, a query, a fragment or an escape, and no blank.
abbrev pub IsPlain : ℕ → Type 0
IsPlain c = (c ≢ b'/') × (c ≢ b'\\') × (c ≢ b'?') × (c ≢ b'#') × (c ≢ b'%') × (c ≢ b' ')

-- One step of a path: it holds no separator, and is neither empty nor "." nor "..".
pub record IsStep (s : Text) : Type 0 where
  pub plain : All IsPlain s
  pub starts : Head is_alnum s

All-mono :
    (p : ℕ → Bool) (Q : ℕ → Type 0)
    → ((c : ℕ) → p c ≡ true → Q c)
    → (s : Text) → All (λ c. p c ≡ true) s
    → All Q s
All-mono p Q f [] h = tt
All-mono p Q f (c ∷ s) h = (f c h.0, All-mono p Q f s h.1)

host_class-IsPlain : (c : ℕ) → host_class c ≡ true → IsPlain c
host_class-IsPlain c h = ground arith

alnum_of_lower : (c : ℕ) → is_lower_alnum c ≡ true → is_alnum c ≡ true
alnum_of_lower c h = ground arith

host_of_dash : (c : ℕ) → dash_class c ≡ true → host_class c ≡ true
host_of_dash c h = ground arith

host_of_name : (c : ℕ) → name_class c ≡ true → host_class c ≡ true
host_of_name c h = ground arith

Head-mono :
    (p q : ℕ → Bool) → ((c : ℕ) → p c ≡ true → q c ≡ true) → (s : Text) → Head p s → Head q s
Head-mono p q f [] h = h
Head-mono p q f (c ∷ s) h = f c h

IsEdged-IsStep :
    (edge mid : ℕ → Bool) (n : ℕ)
    → ((c : ℕ) → edge c ≡ true → is_alnum c ≡ true)
    → ((c : ℕ) → mid c ≡ true → host_class c ≡ true)
    → (s : Text) → IsEdged edge mid n s
    → IsStep s
IsEdged-IsStep edge mid n f g s h = record {
  plain = All-mono mid IsPlain (λ c k. host_class-IsPlain c (g c k)) s h.each;
  starts = Head-mono edge is_alnum f s h.head;
}

edged_IsStep :
    (s what : Text)
    → (assert_namespace s ≡ ok s)
      ⊎ (assert_container_name s ≡ ok s)
      ⊎ (assert_name s what ≡ ok s)
      ⊎ (assert_hostname s ≡ ok s)
    → IsStep s
edged_IsStep s what (inl h) =
    IsEdged-IsStep is_lower_alnum dash_class 63 alnum_of_lower host_of_dash s
      ((name_checks_iff s what).0.0 h)
edged_IsStep s what (inr (inl h)) =
    IsEdged-IsStep is_lower_alnum dash_class 63 alnum_of_lower host_of_dash s
      ((name_checks_iff s what).1.0 h)
edged_IsStep s what (inr (inr (inl h))) =
    IsEdged-IsStep is_lower_alnum name_class 253 alnum_of_lower host_of_name s
      ((name_checks_iff s what).2.0 h)
edged_IsStep s what (inr (inr (inr h))) =
    IsEdged-IsStep is_alnum host_class 253 (λ c k. k) (λ c k. k) s ((name_checks_iff s what).3.0 h)

ensure_same :
    (b : Bool) (e : GuardError) (s t : Text) → ensure b e s ≡ ok t → (s ≡ t) × (ensure b e s ≡ ok s)
ensure_same true e s t h = (sym (ensure-eq-ok true e s h).1, refl)
ensure_same false e s t h = cc

pub returns_its_argument :
    (s t what : Text)
    → (assert_namespace s ≡ ok t)
      ⊎ (assert_container_name s ≡ ok t)
      ⊎ (assert_name s what ≡ ok t)
      ⊎ (assert_hostname s ≡ ok t)
    → (s ≡ t)
      × ((assert_namespace s ≡ ok s)
          ⊎ (assert_container_name s ≡ ok s)
          ⊎ (assert_name s what ≡ ok s)
          ⊎ (assert_hostname s ≡ ok s))
unfolding assert_namespace assert_container_name assert_name assert_hostname
returns_its_argument s t what (inl h) = let (e, k) = ensure_same _ _ s t h in (e, inl k)
returns_its_argument s t what (inr (inl h)) = let (e, k) = ensure_same _ _ s t h in (e, inr (inl k))
returns_its_argument s t what (inr (inr (inl h))) =
    let (e, k) = ensure_same _ _ s t h in (e, inr (inr (inl k)))
returns_its_argument s t what (inr (inr (inr h))) =
    let (e, k) = ensure_same _ _ s t h in (e, inr (inr (inr k)))

-- Whatever one of the four name checks returns is one step of a path: none of its characters is
-- "/", "\", "?", "#", "%" or a blank, and it begins with an alphanumeric, so that it is neither
-- empty nor "." nor "..".
pub accepted-IsStep :
    (s t what : Text)
    → (assert_namespace s ≡ ok t)
      ⊎ (assert_container_name s ≡ ok t)
      ⊎ (assert_name s what ≡ ok t)
      ⊎ (assert_hostname s ≡ ok t)
    → IsStep t
accepted-IsStep s t what h =
    let (e, k) = returns_its_argument s t what h in subst IsStep e (edged_IsStep s what k)

allowed_cases :
    (b : Bool) (s : Text) (e : GuardError)
    → ◌≡◌ {A = Result GuardError Text} (if b then err e else ok s) (ok s)
    → b ≡ false
allowed_cases true s e h = cc
allowed_cases false s e h = refl

-- A namespace passes exactly if it is a DNS label and the allow-list is empty or names it.
pub assert_namespace_allowed_iff :
    (s : Text) (allowed : List Text)
    → (assert_namespace_allowed s allowed ≡ ok s)
      ↔ (IsDnsLabel s × ((allowed ≡ []) ⊎ (includes s allowed ≡ true)))
unfolding assert_namespace_allowed
assert_namespace_allowed_iff s allowed = (
  λ h.
      let (t, label, rest) = >>=-eq-ok (assert_namespace s) _ h in
      (
        (name_checks_iff s []).0.0 (ensure_same _ _ s t label).1,
        listed allowed (allowed_cases _ s _ rest),
      ),
  λ h. rw ((name_checks_iff s []).0.1 h.0) (passes allowed h.1),
)
  where
    listed :
        (allowed : List Text)
        → (not (length allowed == 0) && not (includes s allowed)) ≡ false
        → (allowed ≡ []) ⊎ (includes s allowed ≡ true)
    listed [] h = inl refl
    listed (a ∷ l) h = inr (ground arith)

    passes :
        (allowed : List Text)
        → (allowed ≡ []) ⊎ (includes s allowed ≡ true)
        → ◌≡◌ {A = Result GuardError Text}
            (if not (length allowed == 0) && not (includes s allowed)
              then err (not_allowed s allowed)
              else ok s)
            (ok s)
    passes [] h = refl
    passes (a ∷ l) (inl e) = cc
    passes (a ∷ l) (inr e) = rw e (ground arith)

namespace_cases :
    (b : Bool) (s t : Text) (e : GuardError)
    → ◌≡◌ {A = Result GuardError Text} (if b then err e else ok s) (ok t)
    → (b ≡ false) × (s ≡ t)
namespace_cases true s t e h = cc
namespace_cases false s t e h = (refl, ground arith)

-- A namespace that is returned is the one given, and it passes.
pub assert_namespace_allowed-same :
    (s t : Text) (allowed : List Text)
    → assert_namespace_allowed s allowed ≡ ok t
    → (s ≡ t) × (assert_namespace_allowed s allowed ≡ ok s)
unfolding assert_namespace_allowed
assert_namespace_allowed-same s t allowed h =
    let (u, label, rest) = >>=-eq-ok (assert_namespace s) _ h in
    let e = (namespace_cases _ s t _ rest).1 in
    (e, subst (λ x. assert_namespace_allowed s allowed ≡ ok x) (sym e) h)

-- A label selector that is returned is the one given, and it passes.
pub assert_label_selector-same :
    (s t : Text) → assert_label_selector s ≡ ok t → (s ≡ t) × (assert_label_selector s ≡ ok s)
unfolding assert_label_selector
assert_label_selector-same s t h = ensure_same _ _ s t h
