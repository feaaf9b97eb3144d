-- ===== src/Regex/Sound.antt =====
-- What a match is, without backtracking, and that the matcher finds one exactly when there is one.
use mathlib.Core.List.{reverse_aux}
use kube_diagnostics_mcp.Common.{
  ℕ, zero, suc, ◌-◌, ◌≤◌, ◌≡◌, refl, ap, ◌⊎◌, inl, inr, Bool, true, false, ◌&&◌, Option, none, some,
  [], ◌∷◌, ◌++◌, arith, ◌==◌, if◌then◌else◌, is_some, and-true, Bool-cases, All, length, Text,
}
use kube_diagnostics_mcp.Regex.{
  Regex, empty, char, seq, alt, rep, group, start, finish, boundary, ahead, Captures, Hit, Cont,
  may_repeat, one_less, prefer, at_boundary, run_rep, run, hit, taken,
}

abbrev pub Fits : Option ℕ → ℕ → Type 0
Fits none n = Unit
Fits (some m) n = n ≤ m

-- `x` matches the text between the two positions and takes the captures `cs` to `cs'`; a position
-- is the text before, backwards, and the text after.
abbrev pub Match : Regex → Captures → Text → Text → Captures → Text → Text → Type 0
Match empty cs b r cs' b' r' = (cs' ≡ cs) × (b' ≡ b) × (r' ≡ r)
Match (char p) cs b r cs' b' r' = (c : ℕ) × (p c ≡ true) × (r ≡ c ∷ r') × (b' ≡ c ∷ b) × (cs' ≡ cs)
Match (seq x y) cs b r cs' b' r' =
    (ds : Captures) × (m : Text) × (n : Text) × Match x cs b r ds m n × Match y ds m n cs' b' r'
Match (alt x y) cs b r cs' b' r' = Match x cs b r cs' b' r' ⊎ Match y cs b r cs' b' r'
Match (rep g lo hi p) cs b r cs' b' r' =
    (w : Text) × (r ≡ w ++ r')
    × (b' ≡ reverse_aux w b)
    × All (λ c. p c ≡ true) w
    × (lo ≤ length w)
    × Fits hi (length w)
    × (cs' ≡ cs)
Match (group n x) cs b r cs' b' r' =
    (ds : Captures) × Match x cs b r ds b' r' × (cs' ≡ (n, taken r r') ∷ ds)
Match start cs b r cs' b' r' = (b ≡ []) × (cs' ≡ cs) × (b' ≡ b) × (r' ≡ r)
Match finish cs b r cs' b' r' = (r ≡ []) × (cs' ≡ cs) × (b' ≡ b) × (r' ≡ r)
Match boundary cs b r cs' b' r' = (at_boundary b r ≡ true) × (cs' ≡ cs) × (b' ≡ b) × (r' ≡ r)
Match (ahead wanted x) cs b r cs' b' r' =
    (is_some (run x [] b r hit) ≡ wanted) × (cs' ≡ cs) × (b' ≡ b) × (r' ≡ r)

prefer-some :
    (g : Bool) (more stop : Option Hit) {h : Hit}
    → prefer g more stop ≡ some h
    → (more ≡ some h) ⊎ (stop ≡ some h)
prefer-some true (some a) stop e = inl e
prefer-some true none stop e = inr e
prefer-some false more (some a) e = inr e
prefer-some false more none e = inl e

-- A run of the class from here, and a continuation that succeeds behind it.
record Run (p : ℕ → Bool) (lo : ℕ) (hi : Option ℕ) (b r : Text) (k : Cont) (h : Hit) : Type 0 where
  word : Text
  rest : Text
  splits : r ≡ word ++ rest
  each : All (λ c. p c ≡ true) word
  least : lo ≤ length word
  most : Fits hi (length word)
  goes_on : k (reverse_aux word b) rest ≡ some h

Fits-zero : (hi : Option ℕ) → Fits hi 0
Fits-zero none = tt
Fits-zero (some n) = omega arith

Fits-suc : (hi : Option ℕ) (n : ℕ) → may_repeat hi ≡ true → Fits (one_less hi) n → Fits hi (suc n)
Fits-suc none n m h = tt
Fits-suc (some zero) n m h = absurd (ground arith)
Fits-suc (some (suc i)) n m h = omega arith

Run-stop :
    (p : ℕ → Bool) (lo : ℕ) (hi : Option ℕ) (b r : Text) (k : Cont) (h : Hit)
    → (if lo == 0 then k b r else none) ≡ some h
    → Run p lo hi b r k h
Run-stop p lo hi b r k h e = record {
  word = [];
  rest = r;
  splits = refl;
  each = tt;
  least = ground arith;
  most = Fits-zero hi;
  goes_on = ground arith;
}

Run-more :
    (p : ℕ → Bool) (lo : ℕ) (hi : Option ℕ) (b : Text) (c : ℕ) (r : Text) (k : Cont) (h : Hit)
    → p c ≡ true
    → may_repeat hi ≡ true
    → Run p (lo - 1) (one_less hi) (c ∷ b) r k h
    → Run p lo hi b (c ∷ r) k h
Run-more p lo hi b c r k h pc m s = record {
  word = c ∷ s.word;
  rest = s.rest;
  splits = ap (◌∷◌ c) s.splits;
  each = (pc, s.each);
  least = let l = s.least in omega arith;
  most = Fits-suc hi (length s.word) m s.most;
  goes_on = s.goes_on;
}

guarded_some :
    (t : Bool) (o : Option Hit) {h : Hit}
    → (elim t as (λ _. Option Hit) [ true ↦ o | false ↦ none ]) ≡ some h
    → (t ≡ true) × (o ≡ some h)
guarded_some true o e = (refl, e)
guarded_some false o e = cc

run_rep_sound :
    (g : Bool) (p : ℕ → Bool) (lo : ℕ) (hi : Option ℕ) (b r : Text) (k : Cont) {h : Hit}
    → run_rep g p lo hi b r k ≡ some h
    → Run p lo hi b r k h
unfolding run_rep
run_rep_sound g p lo hi b [] k {h} e = Run-stop p lo hi b [] k h e
run_rep_sound g p lo hi b (c ∷ r) k {h} e = elim (prefer-some g _ _ e) [
  | inl more ↦
      let (both, further) = guarded_some (p c && may_repeat hi) _ more in
      let (pc, m) = and-true (p c) (may_repeat hi) both in
      Run-more p lo hi b c r k h pc m (run_rep_sound g p (lo - 1) (one_less hi) (c ∷ b) r k further)
  | inr stop ↦ Run-stop p lo hi b (c ∷ r) k h stop
]

none-ne-some : {h : Hit} → ◌≡◌ {A = Option Hit} none (some h) → ⊥
none-ne-some e = cc

ahead_some :
    (there wanted : Bool) (o : Option Hit) {h : Hit}
    → (if there then (if wanted then o else none) else (if wanted then none else o)) ≡ some h
    → (there ≡ wanted) × (o ≡ some h)
ahead_some true true o e = (refl, e)
ahead_some true false o e = absurd (none-ne-some e)
ahead_some false true o e = absurd (none-ne-some e)
ahead_some false false o e = (refl, e)

-- A match, with a continuation that succeeds behind it.
pub record Success (x : Regex) (cs : Captures) (b r : Text) (k : Captures → Cont) (h : Hit)
    : Type 0 where
  pub captures : Captures
  pub before : Text
  pub after : Text
  pub matched : Match x cs b r captures before after
  pub goes_on : k captures before after ≡ some h

-- A result of the matcher comes from a match.
pub run_sound :
    (x : Regex) (cs : Captures) (b r : Text) (k : Captures → Cont) {h : Hit}
    → run x cs b r k ≡ some h
    → Success x cs b r k h
unfolding run
run_sound empty cs b r k e = record {
  captures = cs;
  before = b;
  after = r;
  matched = (refl, refl, refl);
  goes_on = e;
}
run_sound (char p) cs b [] k e = absurd (ground arith)
run_sound (char p) cs b (c ∷ r) k e = record {
  captures = cs;
  before = c ∷ b;
  after = r;
  matched = (c, ground arith, refl, refl, refl);
  goes_on = ground arith;
}
run_sound (seq x y) cs b r k e =
    let first = run_sound x cs b r _ e in
    let second = run_sound y first.captures first.before first.after k first.goes_on in
    record {
      captures = second.captures;
      before = second.before;
      after = second.after;
      matched = (first.captures, first.before, first.after, first.matched, second.matched);
      goes_on = second.goes_on;
    }
run_sound (alt x y) cs b r k e = elim (prefer-some true _ _ e) [
  | inl left ↦
      let s = run_sound x cs b r k left in
      record {
        captures = s.captures;
        before = s.before;
        after = s.after;
        matched = inl s.matched;
        goes_on = s.goes_on;
      }
  | inr right ↦
      let s = run_sound y cs b r k right in
      record {
        captures = s.captures;
        before = s.before;
        after = s.after;
        matched = inr s.matched;
        goes_on = s.goes_on;
      }
]
run_sound (rep g lo hi p) cs b r k e =
    let s = run_rep_sound g p lo hi b r (k cs) e in
    record {
      captures = cs;
      before = reverse_aux s.word b;
      after = s.rest;
      matched = (s.word, s.splits, refl, s.each, s.least, s.most, refl);
      goes_on = s.goes_on;
    }
run_sound (group n x) cs b r k e =
    let s = run_sound x cs b r _ e in
    record {
      captures = (n, taken r s.after) ∷ s.captures;
      before = s.before;
      after = s.after;
      matched = (s.captures, s.matched, refl);
      goes_on = s.goes_on;
    }
run_sound start cs [] r k e = record {
  captures = cs;
  before = [];
  after = r;
  matched = (refl, refl, refl, refl);
  goes_on = e;
}
run_sound start cs (c ∷ b) r k e = absurd (ground arith)
run_sound finish cs b [] k e = record {
  captures = cs;
  before = b;
  after = [];
  matched = (refl, refl, refl, refl);
  goes_on = e;
}
run_sound finish cs b (c ∷ r) k e = absurd (ground arith)
run_sound boundary cs b r k e = elim (Bool-cases (at_boundary b r)) [
  | inl edge ↦ record {
    captures = cs;
    before = b;
    after = r;
    matched = (edge, refl, refl, refl);
    goes_on = rw edge at e;
  }
  | inr inside ↦ absurd (none-ne-some (rw inside at e))
]
run_sound (ahead wanted x) cs b r k e =
    let (same_flag, later) = ahead_some _ wanted _ e in
    record {
      captures = cs;
      before = b;
      after = r;
      matched = (same_flag, refl, refl, refl);
      goes_on = later;
    }
