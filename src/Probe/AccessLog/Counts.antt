-- ===== src/Probe/AccessLog/Counts.antt =====
-- What the numbers of a summary of an access log count.
use kube_diagnostics_mcp.Common.{
  ℕ, ◌+◌, ◌≤◌, ◌≡◌, refl, sym, ◌∙◌, inl, inr, Bool, Option, List, [], ◌∷◌, arith, map, Text, txt,
  Map, length, or_else, sum_of-update, ok-injective, Result-cases, sum_of, sum_of-add_to, total_of,
  total_of-take, total_of-sort_by, IsDescending, sort_by-IsDescending, take-IsDescending, sort_by,
  length-take, descending, Number, Result, ok, err, whole,
}
use mathlib.Core.Path.{subst}
use kube_diagnostics_mcp.Probe.AccessLog.{Js, AccessRecord}
use kube_diagnostics_mcp.Probe.AccessLog.Paths.{normalize_path}
use kube_diagnostics_mcp.Probe.AccessLog.Summary.{
  TopPath, AccessLogSummary, path_row, summary_of, summarize_access_records,
}
use kube_diagnostics_mcp.Probe.AccessLog.Rounds.{
  PathEntry, UpstreamEntry, Totals, no_totals, TypeError, count_path, note_upstream, count_record,
  count_round, count_records, at_least, one_if, equals,
}

abbrev visits : PathEntry → ℕ
visits e = e.count

abbrev failures : PathEntry → ℕ
failures e = e.errors

count_path-visits :
    (status : Number) (ms : Option Number) (p : Text) (m : Map PathEntry)
    → sum_of visits (count_path status ms p m) ≡ sum_of visits m + 1
unfolding count_path
count_path-visits status ms p m =
    sum_of-update visits p (record { count = 0; times = []; errors = 0 }) _ 1 m refl refl

count_path-failures :
    (status : Number) (ms : Option Number) (p : Text) (m : Map PathEntry)
    → sum_of failures (count_path status ms p m) ≡ sum_of failures m + one_if (at_least status 500)
unfolding count_path
count_path-failures status ms p m =
    sum_of-update failures p (record { count = 0; times = []; errors = 0 }) _
      (one_if (at_least status 500)) m refl refl

-- The number of records that pass a test.
abbrev pub records_with : (AccessRecord → Bool) → List AccessRecord → ℕ
records_with p [] = 0
records_with p (r ∷ rs) = one_if (p r) + records_with p rs

abbrev pub status_of : AccessRecord → Number
status_of r = or_else r.status (whole 0)

abbrev pub is_failure : AccessRecord → Bool
is_failure r = at_least (or_else r.status (whole 0)) 500

abbrev pub is_abandoned : AccessRecord → Bool
is_abandoned r = equals (or_else r.status (whole 0)) 499

module _ (js : Js) where
  -- What `rs` adds to the totals.
  abbrev Adds : List AccessRecord → Totals → Totals → Type 0
  Adds rs t t' =
      (sum_of (λ n. n) t'.by_status ≡ sum_of (λ n. n) t.by_status + length rs)
      × (sum_of (λ n. n) t'.by_status_class ≡ sum_of (λ n. n) t.by_status_class + length rs)
      × (sum_of visits t'.paths ≡ sum_of visits t.paths + length rs)
      × (sum_of failures t'.paths ≡ sum_of failures t.paths + records_with is_failure rs)
      × (t'.client_abandoned499 ≡ t.client_abandoned499 + records_with is_abandoned rs)

  count_record-Adds :
      (r : AccessRecord) (upstreams : Map UpstreamEntry) (t : Totals)
      → Adds (r ∷ []) t (count_record js r upstreams t)
  unfolding count_record
  count_record-Adds r upstreams t =
      let p = normalize_path (or_else r.path (txt "/")) in
      (
        sum_of-add_to 1 _ t.by_status,
        sum_of-add_to 1 _ t.by_status_class,
        count_path-visits (status_of r) r.request_ms p t.paths,
        omega (arith, count_path-failures (status_of r) r.request_ms p t.paths),
        omega arith,
      )

  count_round-Adds :
      (r : AccessRecord) (t : Totals) {t' : Totals}
      → count_round js r t ≡ ok t'
      → Adds (r ∷ []) t t'
  unfolding count_round
  count_round-Adds r t {t'} h = go (note_upstream r (status_of r) t.upstreams) h
    where
      go :
          (m : Result TypeError (Map UpstreamEntry))
          → (elim m [ err e ↦ err e | ok u ↦ ok (count_record js r u t) ]) ≡ ok t'
          → Adds (r ∷ []) t t'
      go (err e) h = cc
      go (ok u) h = subst (Adds (r ∷ []) t) (sym (ok-injective h)) (count_record-Adds r u t)

  Adds-cons :
      (r : AccessRecord) (rs : List AccessRecord) (t t' t'' : Totals)
      → Adds (r ∷ []) t t'
      → Adds rs t' t''
      → Adds (r ∷ rs) t t''
  Adds-cons r rs t t' t'' (a, b, c, d, e) (a', b', c', d', e') =
      (omega arith, omega arith, omega arith, omega arith, omega arith)

  count_records-Adds :
      (rs : List AccessRecord) (t : Totals) {t' : Totals}
      → count_records js rs t ≡ ok t'
      → Adds rs t t'
  unfolding count_records
  count_records-Adds [] t {t'} h =
      subst (Adds [] t) (sym (ok-injective h))
        (omega arith, omega arith, omega arith, omega arith, omega arith)
  count_records-Adds (r ∷ rs) t {t'} h = elim (Result-cases (count_round js r t)) [
    | inl (t1, e) ↦
        Adds-cons r rs t t1 t' (count_round-Adds r t e)
          (count_records-Adds rs t1 (rw (e, count_records) at h))
    | inr (x, e) ↦ absurd (err-ok (rw (e, count_records) at h))
  ]
    where
      err-ok : {x : TypeError} → ◌≡◌ {A = Result TypeError Totals} (err x) (ok t') → ⊥
      err-ok h = cc

paths_total :
    (m : Map PathEntry) → total_of (λ (r : TopPath). r.count) (map path_row m) ≡ sum_of visits m
paths_total [] = refl
paths_total ((k, e) ∷ m) = omega (arith, paths_total m)

-- Whenever records are summarized, the statuses and their classes account for every record, once
-- each; at most 30 paths are shown, the most visited first, with no more visits than records; and
-- the abandoned requests are those with status 499.
pub summarize_access_records_counts :
    (js : Js) (records : List AccessRecord) (raw_lines : List Text) {s : AccessLogSummary}
    → summarize_access_records js records raw_lines ≡ ok s
    → (s.lines ≡ length records)
      × (sum_of (λ n. n) s.by_status ≡ length records)
      × (sum_of (λ n. n) s.by_status_class ≡ length records)
      × (length s.top_paths ≤ 30)
      × IsDescending (λ r. r.count) s.top_paths
      × (total_of (λ r. r.count) s.top_paths ≤ length records)
      × (s.client_abandoned499 ≡ records_with is_abandoned records)
unfolding summarize_access_records summary_of
summarize_access_records_counts js records raw_lines {s} h =
    elim (Result-cases (count_records js records no_totals)) [
      | inl (t, e) ↦
          subst Counted (sym (ok-injective (rw (e, summarize_access_records) at h)))
            (counted t (count_records-Adds js records no_totals e))
      | inr (x, e) ↦ absurd (err-ok (rw (e, summarize_access_records) at h))
    ]
  where
    err-ok : {x : TypeError} → ◌≡◌ {A = Result TypeError AccessLogSummary} (err x) (ok s) → ⊥
    err-ok h = cc

    Counted : AccessLogSummary → Type 0
    Counted s =
        (s.lines ≡ length records)
        × (sum_of (λ n. n) s.by_status ≡ length records)
        × (sum_of (λ n. n) s.by_status_class ≡ length records)
        × (length s.top_paths ≤ 30)
        × IsDescending (λ r. r.count) s.top_paths
        × (total_of (λ r. r.count) s.top_paths ≤ length records)
        × (s.client_abandoned499 ≡ records_with is_abandoned records)

    counted :
        (t : Totals)
        → Adds js records no_totals t
        → Counted (summary_of (length records) raw_lines t)
    counted t (a, b, c, d, e) =
        let rows : List TopPath = map path_row t.paths in
        let sorted : List TopPath = sort_by (descending (λ r. r.count)) rows in
        (
          refl,
          a ∙ omega arith,
          b ∙ omega arith,
          omega (arith, length-take 30 sorted),
          take-IsDescending (λ r. r.count) 30 sorted (sort_by-IsDescending (λ r. r.count) rows),
          omega (
            arith,
            total_of-take (λ (r : TopPath). r.count) 30 sorted,
            total_of-sort_by (λ (r : TopPath). r.count) (descending (λ r. r.count)) rows,
            paths_total t.paths,
            c,
          ),
          e ∙ omega arith,
        )
