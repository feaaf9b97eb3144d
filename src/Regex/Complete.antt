-- ===== src/Regex/Complete.antt =====
-- Where there is a match, the matcher finds one, whatever stands before it in the order of trials.
use mathlib.Core.List.{reverse_aux}
use kube_diagnostics_mcp.Common.{
  ℕ, zero, suc, ◌-◌, ◌≤◌, ◌≡◌, refl, inl, inr, Bool, true, false, Option, none, some, [], ◌∷◌, ◌++◌,
  arith, is_some, All, length, Text,
}
use kube_diagnostics_mcp.Regex.{
  Regex, empty, char, seq, alt, rep, group, start, finish, boundary, ahead, Captures, Hit, Cont,
  may_repeat, one_less, prefer, run_rep, run, hit, match_at,
}
use kube_diagnostics_mcp.Regex.Sound.{Fits, Match, run_sound}

prefer-more :
    (g : Bool) (more stop : Option Hit) → is_some more ≡ true → is_some (prefer g more stop) ≡ true
prefer-more true (some a) stop h = refl
prefer-more true none stop h = absurd (ground arith)
prefer-more false more (some a) h = refl
prefer-more false more none h = ground arith

prefer-stop :
    (g : Bool) (more stop : Option Hit) → is_some stop ≡ true → is_some (prefer g more stop) ≡ true
prefer-stop true (some a) stop h = refl
prefer-stop true none stop h = ground arith
prefer-stop false more (some a) h = refl
prefer-stop false more none h = absurd (ground arith)

may_repeat-suc : (hi : Option ℕ) (n : ℕ) → Fits hi (suc n) → may_repeat hi ≡ true
may_repeat-suc none n h = refl
may_repeat-suc (some zero) n h = absurd (omega arith)
may_repeat-suc (some (suc i)) n h = ground arith

Fits-one_less : (hi : Option ℕ) (n : ℕ) → Fits hi (suc n) → Fits (one_less hi) n
Fits-one_less none n h = tt
Fits-one_less (some m) n h = omega arith

run_rep-empty :
    (g : Bool) (p : ℕ → Bool) (lo : ℕ) (hi : Option ℕ) (b r : Text) (k : Cont)
    → lo ≤ 0
    → is_some (k b r) ≡ true
    → is_some (run_rep g p lo hi b r k) ≡ true
unfolding run_rep
run_rep-empty g p lo hi b [] k l h = ground arith
run_rep-empty g p lo hi b (c ∷ r) k l h = prefer-stop g _ _ (ground arith)

run_rep-cons :
    (g : Bool) (p : ℕ → Bool) (lo : ℕ) (hi : Option ℕ) (b : Text) (c : ℕ) (r : Text) (k : Cont)
    → p c ≡ true
    → may_repeat hi ≡ true
    → is_some (run_rep g p (lo - 1) (one_less hi) (c ∷ b) r k) ≡ true
    → is_some (run_rep g p lo hi b (c ∷ r) k) ≡ true
unfolding run_rep
run_rep-cons g p lo hi b c r k pc m h = prefer-more g _ _ (rw (pc, m) h)

run_rep_complete :
    (g : Bool) (p : ℕ → Bool) (lo : ℕ) (hi : Option ℕ) (b w r : Text) (k : Cont)
    → All (λ c. p c ≡ true) w
    → lo ≤ length w
    → Fits hi (length w)
    → is_some (k (reverse_aux w b) r) ≡ true
    → is_some (run_rep g p lo hi b (w ++ r) k) ≡ true
run_rep_complete g p lo hi b [] r k a l f h = run_rep-empty g p lo hi b r k l h
run_rep_complete g p lo hi b (c ∷ w) r k (pc, a) l f h =
    run_rep-cons g p lo hi b c (w ++ r) k pc (may_repeat-suc hi (length w) f) (
      run_rep_complete g p (lo - 1) (one_less hi) (c ∷ b) w r k a (omega arith)
        (Fits-one_less hi (length w) f) h)

run_complete :
    (x : Regex) (cs : Captures) (b r : Text) (k : Captures → Cont) (cs' : Captures) (b' r' : Text)
    → Match x cs b r cs' b' r'
    → is_some (k cs' b' r') ≡ true
    → is_some (run x cs b r k) ≡ true
unfolding run
run_complete empty cs b r k cs' b' r' (o, p, q) h = rw (o, p, q) at h
run_complete (char p) cs b r k cs' b' r' (c, pc, e, f, o) h = rw (e, pc) (rw (o, f) at h)
run_complete (seq x y) cs b r k cs' b' r' (ds, m, n, first, second) h =
    run_complete x cs b r _ ds m n first (run_complete y ds m n k cs' b' r' second h)
run_complete (alt x y) cs b r k cs' b' r' (inl left) h =
    prefer-more true _ _ (run_complete x cs b r k cs' b' r' left h)
run_complete (alt x y) cs b r k cs' b' r' (inr right) h =
    prefer-stop true _ _ (run_complete y cs b r k cs' b' r' right h)
run_complete (rep g lo hi p) cs b r k cs' b' r' (w, e, f, a, l, m, o) h =
    rw e (run_rep_complete g p lo hi b w r' (k cs) a l m (rw (o, f) at h))
run_complete (group n x) cs b r k cs' b' r' (ds, m, o) h =
    run_complete x cs b r _ ds b' r' m (rw o at h)
run_complete start cs b r k cs' b' r' (e, o, p, q) h = rw e (rw (o, p, q, e) at h)
run_complete finish cs b r k cs' b' r' (e, o, p, q) h = rw e (rw (o, p, q, e) at h)
run_complete boundary cs b r k cs' b' r' (e, o, p, q) h = rw e (rw (o, p, q) at h)
run_complete (ahead true x) cs b r k cs' b' r' (e, o, p, q) h = rw e (rw (o, p, q) at h)
run_complete (ahead false x) cs b r k cs' b' r' (e, o, p, q) h = rw e (rw (o, p, q) at h)

hit_injective :
    (cs : Captures) (b r : Text) {h : Hit}
    → hit cs b r ≡ some h
    → ◌≡◌ {A = Hit} (record { captures = cs; before = b; after = r }) h
hit_injective cs b r e = ground arith

-- What the matcher returns at a position is a match that begins there.
pub match_at_sound :
    (x : Regex) (b r : Text) {h : Hit}
    → match_at x b r ≡ some h
    → Match x [] b r h.captures h.before h.after
unfolding match_at
match_at_sound x b r e =
    let s = run_sound x [] b r hit e in rw (← hit_injective _ _ _ s.goes_on) s.matched

-- The matcher finds a match that begins at a position when there is one.
pub match_at_complete :
    (x : Regex) (b r : Text) (cs' : Captures) (b' r' : Text)
    → Match x [] b r cs' b' r'
    → is_some (match_at x b r) ≡ true
unfolding match_at
match_at_complete x b r cs' b' r' m = run_complete x [] b r hit cs' b' r' m refl
