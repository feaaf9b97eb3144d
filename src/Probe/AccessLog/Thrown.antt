-- ===== src/Probe/AccessLog/Thrown.antt =====
-- When records have a summary: the loop throws at an upstream that is no string.
use kube_diagnostics_mcp.Common.{
  ◌≡◌, refl, ◌∙◌, not, all, inl, inr, Bool, true, false, List, [], ◌∷◌, Text, Map, same, length,
  Result-cases, is_empty, ◌||◌, if◌then◌else◌, Number, Result, ok, err,
}
use kube_diagnostics_mcp.Json.{Value, undefined, null, bool, num, obj, arr, str}
use kube_diagnostics_mcp.Probe.AccessLog.{Js, AccessRecord, is_truthy}
use kube_diagnostics_mcp.Probe.AccessLog.Summary.{summary_of, summarize_access_records}
use kube_diagnostics_mcp.Probe.AccessLog.Rounds.{
  UpstreamEntry, Totals, no_totals, TypeError, no_string, count_upstream, note_upstream,
  count_record, count_round, count_records,
}
use kube_diagnostics_mcp.Probe.AccessLog.Counts.{status_of}

-- An upstream that is a string, or that counts as missing.
abbrev pub is_text_upstream : Value → Bool
is_text_upstream (str s) = true
is_text_upstream v = not (is_truthy v)

abbrev pub is_ok {ℓ} : {E A : Type ℓ} → Result E A → Bool
is_ok (ok a) = true
is_ok (err e) = false

note_upstream_ok :
    (r : AccessRecord) (status : Number) (m : Map UpstreamEntry)
    → is_ok (note_upstream r status m) ≡ is_text_upstream r.upstream
note_upstream_ok r status m = value_ok r.upstream
  where
    thrown : (b : Bool) → is_ok {A = Map UpstreamEntry} (if b then err no_string else ok m) ≡ not b
    thrown true = refl
    thrown false = refl

    value_ok :
        (v : Value)
        → is_ok (elim v [
          | str s ↦ ok (if is_empty s || same s (b'-' ∷ []) then m else count_upstream r status s m)
          | v ↦ if is_truthy v then err no_string else ok m
        ])
          ≡ is_text_upstream v
    value_ok undefined = refl
    value_ok null = refl
    value_ok (bool b) = thrown b
    value_ok (num n) = thrown (is_truthy (num n))
    value_ok (obj fs) = refl
    value_ok (arr xs) = refl
    value_ok (str s) = refl

count_round_ok :
    (js : Js) (r : AccessRecord) (t : Totals)
    → is_ok (count_round js r t) ≡ is_text_upstream r.upstream
unfolding count_round
count_round_ok js r t =
    same_ok (note_upstream r (status_of r) t.upstreams)
    ∙ note_upstream_ok r (status_of r) t.upstreams
  where
    same_ok :
        (m : Result TypeError (Map UpstreamEntry))
        → is_ok (elim m [ err e ↦ err e | ok u ↦ ok (count_record js r u t) ]) ≡ is_ok m
    same_ok (ok u) = refl
    same_ok (err e) = refl

count_records_ok :
    (js : Js) (rs : List AccessRecord) (t : Totals)
    → is_ok (count_records js rs t) ≡ all (λ r. is_text_upstream r.upstream) rs
unfolding count_records all
count_records_ok js [] t = refl
count_records_ok js (r ∷ rs) t = elim (Result-cases (count_round js r t)) [
  | inl (t', e) ↦ rw (← count_round_ok js r t, e, count_records) (count_records_ok js rs t')
  | inr (x, e) ↦ rw (← count_round_ok js r t, e, count_records) refl
]

-- A list of records has a summary exactly if the upstream of each is a string or counts as missing:
-- one record whose upstream is another value leaves the whole log without a summary.
pub summarize_access_records_ok :
    (js : Js) (records : List AccessRecord) (raw_lines : List Text)
    → is_ok (summarize_access_records js records raw_lines)
      ≡ all (λ r. is_text_upstream r.upstream) records
unfolding summarize_access_records
summarize_access_records_ok js records raw_lines =
    same_ok (count_records js records no_totals) ∙ count_records_ok js records no_totals
  where
    same_ok :
        (m : Result TypeError Totals)
        → is_ok (elim m [ err e ↦ err e | ok t ↦ ok (summary_of (length records) raw_lines t) ])
          ≡ is_ok m
    same_ok (ok u) = refl
    same_ok (err e) = refl
