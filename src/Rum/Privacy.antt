-- ===== src/Rum/Privacy.antt =====
-- No query string and no fragment is kept in the name of a route.
use kube_diagnostics_mcp.Common.{
  ℕ, ◌≢◌, inl, inr, Option, none, some, [], ◌∷◌, arith, ◌==◌, Bool-cases, All, All-take, Text, txt,
}
use kube_diagnostics_mcp.Regex.Pieces.{replace-All}
use kube_diagnostics_mcp.Rum.Routes.{
  uuid_segment, number_segment, constant, without_ids, strip_route, normalize_route,
}
use kube_diagnostics_mcp.Strings.{until}

-- Not "?" and not "#".
abbrev pub NoQuery : ℕ → Type 0
NoQuery c = (c ≢ b'?') × (c ≢ b'#')

until-All {ℓ} : (P : ℕ → Type ℓ) (sep : ℕ) (s : Text) → All P s → All P (until sep s)
unfolding until
until-All P sep [] h = tt
until-All P sep (c ∷ s) h = elim (Bool-cases (c == sep)) [
  | inl here ↦ rw here tt
  | inr later ↦ rw later (h.0, until-All P sep s h.1)
]

until_stops : (sep : ℕ) (s : Text) → All (λ c. c ≢ sep) (until sep s)
unfolding until
until_stops sep [] = tt
until_stops sep (c ∷ s) = elim (Bool-cases (c == sep)) [
  | inl here ↦ rw here tt
  | inr later ↦ rw later (ground arith, until_stops sep s)
]

All-both :
    (s : Text) (a b : ℕ) → All (λ c. c ≢ a) s → All (λ c. c ≢ b) s → All (λ c. (c ≢ a) × (c ≢ b)) s
All-both [] a b h k = tt
All-both (c ∷ s) a b h k = ((h.0, k.0), All-both s a b h.1 k.1)

without_ids-NoQuery : (s : Text) → All NoQuery s → All NoQuery (without_ids s)
unfolding without_ids txt
without_ids-NoQuery s h =
    replace-All NoQuery number_segment (constant (txt "/:id")) _ (λ m cs. omega arith)
      (replace-All NoQuery uuid_segment (constant (txt "/:uuid")) s (λ m cs. omega arith) h)

strip_route-NoQuery : (s : Text) → All NoQuery (strip_route s)
unfolding strip_route
strip_route-NoQuery s = without_ids-NoQuery _ (
    All-take NoQuery 200 _ (
      All-both _ b'?' b'#' (until-All _ b'#' _ (until_stops b'?' s))
        (until_stops b'#' (until b'?' s))))

or_slash-NoQuery :
    (s : Text)
    → All NoQuery s
    → All NoQuery (elim s as (λ _. Text) [ [] ↦ b'/' ∷ [] | c ∷ r ↦ c ∷ r ])
or_slash-NoQuery [] h = omega arith
or_slash-NoQuery (c ∷ r) h = h

-- Whatever route a beacon names, the route under which it is filed holds neither "?" nor "#".
pub normalize_route-NoQuery : (route : Option Text) → All NoQuery (normalize_route route)
unfolding normalize_route txt
normalize_route-NoQuery none = omega arith
normalize_route-NoQuery (some []) = omega arith
normalize_route-NoQuery (some (c ∷ route)) = or_slash-NoQuery _ (strip_route-NoQuery (c ∷ route))
