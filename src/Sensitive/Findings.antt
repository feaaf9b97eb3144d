-- ===== src/Sensitive/Findings.antt =====
-- src/security/sensitive.ts: what holds of every finding of a scan.
use kube_diagnostics_mcp.Common.{
  ℕ, suc, ◌+◌, ◌≤◌, inl, inr, not, ◌&&◌, Option, List, [], ◌∷◌, Text, length, length-append, ltb,
  last_or, ◌==◌, or_else, Bool-cases, All, All-append, All-sort_by, arith,
}
use kube_diagnostics_mcp.Sensitive.{SensitiveKind, SensitiveFinding, Detector}
use kube_diagnostics_mcp.Sensitive.Detectors.{detectors}
use kube_diagnostics_mcp.Sensitive.Scan.{
  same_kind, matches, note_location, bump, new_finding, add_match, add_matches, is_excluded,
  scan_record, scan_records, comes_after, scan_for_sensitive_data,
}

-- The count, and the locations: no more than were found and than are wanted, all of them numbers of
-- records up to `n`.
pub record IsSound (most n : ℕ) (f : SensitiveFinding) : Type 0 where
  pub counted : length f.locations ≤ f.count
  pub few : length f.locations ≤ most
  pub within : All (λ l. (1 ≤ l) × (l ≤ n)) f.locations

module _ (most : ℕ) where
  IsSound-mono :
      (n m : ℕ) (fs : List SensitiveFinding)
      → n ≤ m
      → All (IsSound most n) fs
      → All (IsSound most m) fs
  IsSound-mono n m [] p h = tt
  IsSound-mono n m (f ∷ fs) p (s, h) = (
    record { counted = s.counted; few = s.few; within = widen f.locations s.within },
    IsSound-mono n m fs p h,
  )
    where
      widen : (ls : List ℕ) → All (λ l. (1 ≤ l) × (l ≤ n)) ls → All (λ l. (1 ≤ l) × (l ≤ m)) ls
      widen [] h = tt
      widen (l ∷ ls) (a, h) = ((a.0, omega arith), widen ls h)

  bump-IsSound :
      (n : ℕ) (f : SensitiveFinding) → 1 ≤ n → IsSound most n f → IsSound most n (bump most n f)
  unfolding bump note_location
  bump-IsSound n f p s =
      elim (Bool-cases (ltb (length f.locations) most && not (last_or f.locations 0 == n))) [
        | inl room ↦ rw room (record {
          counted = omega (arith, length-append f.locations (n ∷ []), s.counted);
          few = ground (arith, length-append f.locations (n ∷ []));
          within =
              All-append (λ l. (1 ≤ l) × (l ≤ n)) f.locations (n ∷ []) s.within
                ((p, omega arith), tt);
        })
        | inr full ↦
            rw full (record { counted = omega (arith, s.counted); few = s.few; within = s.within })
      ]

  add_match-IsSound :
      (n : ℕ) (d : Detector) (value : Text) (fs : List SensitiveFinding)
      → 1 ≤ n
      → All (IsSound most n) fs
      → All (IsSound most n) (add_match most n d value fs)
  unfolding add_match
  add_match-IsSound n d value [] p h = (
    bump-IsSound n (new_finding d value) p
        (record { counted = omega arith; few = omega arith; within = tt }),
    tt,
  )
  add_match-IsSound n d value (f ∷ fs) p (s, h) = elim (Bool-cases (same_kind f.kind d.kind)) [
    | inl same_one ↦ rw same_one (bump-IsSound n f p s, h)
    | inr other ↦ rw other (s, add_match-IsSound n d value fs p h)
  ]

  add_matches-IsSound :
      (n : ℕ) (d : Detector) (values : List Text) (fs : List SensitiveFinding)
      → 1 ≤ n
      → All (IsSound most n) fs
      → All (IsSound most n) (add_matches most n d values fs)
  unfolding add_matches
  add_matches-IsSound n d [] fs p h = h
  add_matches-IsSound n d (value ∷ values) fs p h = elim (Bool-cases (d.validate value)) [
    | inl good ↦ rw good (
        add_matches-IsSound n d values (add_match most n d value fs) p
          (add_match-IsSound n d value fs p h))
    | inr bad ↦ rw bad (add_matches-IsSound n d values fs p h)
  ]

  scan_record-IsSound :
      (exclude : List SensitiveKind) (n : ℕ) (text : Text) (ds : List Detector)
      (fs : List SensitiveFinding)
      → 1 ≤ n
      → All (IsSound most n) fs
      → All (IsSound most n) (scan_record most exclude n text ds fs)
  unfolding scan_record
  scan_record-IsSound exclude n text [] fs p h = h
  scan_record-IsSound exclude n text (d ∷ ds) fs p h =
      elim (Bool-cases (is_excluded exclude d.kind)) [
        | inl skipped ↦ rw skipped (scan_record-IsSound exclude n text ds fs p h)
        | inr used ↦ rw used (
            scan_record-IsSound exclude n text ds (add_matches most n d (matches d.pattern text) fs)
              p (add_matches-IsSound n d (matches d.pattern text) fs p h))
      ]

  scan_records-IsSound :
      (exclude : List SensitiveKind) (n : ℕ) (rs : List Text) (fs : List SensitiveFinding)
      → All (IsSound most n) fs
      → All (IsSound most (n + length rs)) (scan_records most exclude (n + 1) rs fs)
  unfolding scan_records
  scan_records-IsSound exclude n [] fs h = IsSound-mono n (n + 0) fs (omega arith) h
  scan_records-IsSound exclude n (r ∷ rs) fs h =
      IsSound-mono (n + 1 + length rs) (n + suc (length rs))
        (scan_records most exclude (n + 1 + 1) rs (scan_record most exclude (n + 1) r detectors fs))
        (omega arith)
        (scan_records-IsSound exclude (n + 1) rs (scan_record most exclude (n + 1) r detectors fs) (
          scan_record-IsSound exclude (n + 1) r detectors fs (omega arith)
            (IsSound-mono n (n + 1) fs (omega arith) h)))

-- Whatever records are scanned, each finding has at most as many locations as matches were counted
-- and as the limit allows (10 by default), and each location is the number of one of the records.
pub scan_for_sensitive_data-IsSound :
    (records : List Text) (most : Option ℕ) (exclude : List SensitiveKind)
    → All
        (IsSound (or_else most 10) (length records))
        (scan_for_sensitive_data records most exclude)
unfolding scan_for_sensitive_data
scan_for_sensitive_data-IsSound records most exclude =
    let limit = or_else most 10 in
    All-sort_by comes_after (IsSound limit (length records))
      (scan_records limit exclude 1 records [])
      (IsSound-mono limit (0 + length records) (length records)
        (scan_records limit exclude 1 records []) (omega arith)
        (scan_records-IsSound limit exclude 0 records [] tt))
