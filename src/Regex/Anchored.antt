-- ===== src/Regex/Anchored.antt =====
-- `test` and `exec` of a pattern that begins with `^`: only the match at the start counts. And the
-- two shapes of pattern by which names are checked: `^E(M{0,n}E)?$` and `^C{lo,hi}$`.
use mathlib.Core.List.{reverse_aux, append-nil}
use mathlib.Core.Path.{subst}
use kube_diagnostics_mcp.Common.{
  ℕ, ◌+◌, ◌≤◌, ◌≡◌, refl, sym, ap, List, ◌↔◌, inl, inr, Bool, true, false, none, some, [], ◌∷◌,
  ◌++◌, arith, is_some, is_some-cases, All, All-append, All-append_left, length, length-append,
  Text,
}
use kube_diagnostics_mcp.Regex.{
  Regex, empty, char, seq, alt, rep, group, start, finish, match_at, test_from, test,
}
use kube_diagnostics_mcp.Regex.Sound.{Match}
use kube_diagnostics_mcp.Regex.Complete.{match_at_sound, match_at_complete}

module _ (x : Regex) where
  match_at-start_cons : (c : ℕ) (b r : Text) → match_at (seq start x) (c ∷ b) r ≡ none
  unfolding match_at
  match_at-start_cons c b r = refl

  test_from-start_cons : (c : ℕ) (b r : Text) → test_from (seq start x) (c ∷ b) r ≡ false
  unfolding test_from
  test_from-start_cons c b [] = ground (arith, match_at-start_cons c b [])
  test_from-start_cons c b (d ∷ r) =
      ground (arith, match_at-start_cons c b (d ∷ r), test_from-start_cons d (c ∷ b) r)

  pub test-start : (s : Text) → test (seq start x) s ≡ is_some (match_at (seq start x) [] s)
  unfolding test
  test-start [] = refl
  test-start (c ∷ r) = ground (arith, test_from-start_cons c [] r)

abbrev pub Head : (ℕ → Bool) → Text → Type 0
Head p [] = ⊥
Head p (c ∷ s) = p c ≡ true

abbrev pub Last : (ℕ → Bool) → Text → Type 0
Last p [] = ⊥
Last p (c ∷ []) = p c ≡ true
Last p (c ∷ d ∷ s) = Last p (d ∷ s)

Last-concat : (p : ℕ → Bool) (w : Text) (c : ℕ) → p c ≡ true → Last p (w ++ c ∷ [])
Last-concat p [] c h = h
Last-concat p (d ∷ []) c h = h
Last-concat p (d ∷ e ∷ w) c h = Last-concat p (e ∷ w) c h

concat-Last : (p : ℕ → Bool) (w : Text) (c : ℕ) → Last p (w ++ c ∷ []) → p c ≡ true
concat-Last p [] c h = h
concat-Last p (d ∷ []) c h = h
concat-Last p (d ∷ e ∷ w) c h = concat-Last p (e ∷ w) c h

unsnoc : (c : ℕ) (t : Text) → (w : Text) × (d : ℕ) × (c ∷ t ≡ w ++ d ∷ [])
unsnoc c [] = ([], c, refl)
unsnoc c (e ∷ t) = let (w, d, h) = unsnoc e t in (c ∷ w, d, ap (◌∷◌ c) h)

-- Between one and `most` characters of the class `mid`, the first and the last of the class `edge`.
pub record IsEdged (edge mid : ℕ → Bool) (most : ℕ) (s : Text) : Type 0 where
  pub head : Head edge s
  pub last : Last edge s
  pub each : All (λ c. mid c ≡ true) s
  pub short : length s ≤ most

-- `^E(M{0,n}E)?$`
abbrev pub edged : (ℕ → Bool) → (ℕ → Bool) → ℕ → Regex
edged edge mid n =
    seq start (
      seq (char edge)
        (seq (alt (group 1 (seq (rep true 0 (some n) mid) (char edge))) empty) finish))

module _ (edge mid : ℕ → Bool) (sub : (c : ℕ) → edge c ≡ true → mid c ≡ true) (n : ℕ) where
  IsEdged-long :
      (c : ℕ) (w : Text) (d : ℕ)
      → edge c ≡ true
      → All (λ c. mid c ≡ true) w
      → length w ≤ n
      → edge d ≡ true
      → IsEdged edge mid (n + 2) (c ∷ (w ++ d ∷ []))
  IsEdged-long c w d hc a l hd = record {
    head = hc;
    last = Last-concat edge (c ∷ w) d hd;
    each = (sub c hc, All-append _ w (d ∷ []) a (sub d hd, tt));
    short = omega (arith, length-append {0} w (d ∷ []));
  }

  edged_sound :
      (s : Text) (cs' : List (ℕ × Text)) (b' r' : Text)
      → Match (edged edge mid n) [] [] s cs' b' r'
      → IsEdged edge mid (n + 2) s
  edged_sound s cs' b' r'
        (
          _,
          _,
          r1,
          (_, _, _, q1),
          (
            _,
            _,
            r2,
            (c, pc, e2, _, _),
            (
              _,
              _,
              r3,
              inl (_, (_, _, n4, (w, e4, _, a, _, l, _), (d, pd, e5, _, _)), _),
              (e6, _, _, _),
            ),
          ),
        ) =
      rw (← q1, e2, e4, e5, e6) (IsEdged-long c w d pc a l pd)
  edged_sound s cs' b' r'
        (
          _,
          _,
          r1,
          (_, _, _, q1),
          (_, _, r2, (c, pc, e2, _, _), (_, _, r3, inr (_, _, q3), (e6, _, _, _))),
        ) =
      rw (← q1, e2, ← q3, e6)
        (record { head = pc; last = pc; each = (sub c pc, tt); short = omega arith })

  edged_complete :
      (s : Text) → IsEdged edge mid (n + 2) s → is_some (match_at (edged edge mid n) [] s) ≡ true
  edged_complete [] h = absurd h.head
  edged_complete (c ∷ []) h = match_at_complete (edged edge mid n) [] (c ∷ []) [] (c ∷ []) [] (
    [],
    [],
    c ∷ [],
    (refl, refl, refl, refl),
    (
      [],
      c ∷ [],
      [],
      (c, h.head, refl, refl, refl),
      ([], c ∷ [], [], inr (refl, refl, refl), (refl, refl, refl, refl)),
    ),
  )
  edged_complete (c ∷ e ∷ t) h =
      let (w, d, split) = unsnoc e t in
      let last : edge d ≡ true = concat-Last edge w d (subst (Last edge) split h.last) in
      let each : All (λ c. mid c ≡ true) (w ++ d ∷ []) =
        subst (All (λ c. mid c ≡ true)) split h.each.1 in
      let size = ap length split in
      let short : length w ≤ n = let l = h.short in omega (arith, length-append {0} w (d ∷ [])) in
      rw split (
        match_at_complete (edged edge mid n) [] (c ∷ (w ++ d ∷ [])) _ _ [] (
          [],
          [],
          c ∷ (w ++ d ∷ []),
          (refl, refl, refl, refl),
          (
            [],
            c ∷ [],
            w ++ d ∷ [],
            (c, h.head, refl, refl, refl),
            (
              _,
              d ∷ reverse_aux w (c ∷ []),
              [],
              inl (
                [],
                (
                  [],
                  reverse_aux w (c ∷ []),
                  d ∷ [],
                  (w, refl, refl, All-append_left _ w (d ∷ []) each, omega arith, short, refl),
                  (d, last, refl, refl, refl),
                ),
                refl,
              ),
              (refl, refl, refl, refl),
            ),
          ),
        ))

  -- The pattern accepts exactly the texts of that form.
  pub test-edged : (s : Text) → (test (edged edge mid n) s ≡ true) ↔ IsEdged edge mid (n + 2) s
  test-edged s = rw (test-start _ s) (
    λ h.
        let (hit, e) = is_some-cases (match_at (edged edge mid n) [] s) h in
        edged_sound s _ _ _ (match_at_sound (edged edge mid n) [] s e),
    edged_complete s,
  )

-- `^C{lo,hi}$`
abbrev pub all_of : (ℕ → Bool) → ℕ → ℕ → Regex
all_of p lo hi = seq start (seq (rep true lo (some hi) p) finish)

module _ (p : ℕ → Bool) (lo hi : ℕ) where
  all_of_sound :
      (s : Text) (cs' : List (ℕ × Text)) (b' r' : Text)
      → Match (all_of p lo hi) [] [] s cs' b' r'
      → All (λ c. p c ≡ true) s × (lo ≤ length s) × (length s ≤ hi)
  all_of_sound s cs' b' r'
        (_, _, r1, (_, _, _, q1), (_, _, r2, (w, e2, _, a, l, m, _), (e3, _, _, _))) =
      rw (← q1, e2, e3, append-nil) (a, l, m)

  -- The pattern accepts exactly the texts of the class and of a length in the range.
  pub test-all_of :
      (s : Text)
      → (test (all_of p lo hi) s ≡ true)
        ↔ (All (λ c. p c ≡ true) s × (lo ≤ length s) × (length s ≤ hi))
  test-all_of s = rw (test-start _ s) (
    λ h.
        let (hit, e) = is_some-cases (match_at (all_of p lo hi) [] s) h in
        all_of_sound s _ _ _ (match_at_sound (all_of p lo hi) [] s e),
    λ h. match_at_complete (all_of p lo hi) [] s [] (reverse_aux s []) [] (
      [],
      [],
      s,
      (refl, refl, refl, refl),
      (
        [],
        reverse_aux s [],
        [],
        (s, sym (append-nil s), refl, h.0, h.1, h.2, refl),
        (refl, refl, refl, refl),
      ),
    ),
  )
