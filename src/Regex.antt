-- ===== src/Regex.antt =====
-- JavaScript regular expressions, as far as the program uses them: a backtracking matcher over code
-- units in the order of ECMAScript (alternatives left to right, greedy repetitions longest first),
-- `test`, the global search loop and `String.prototype.replace` with the `g` flag. The `i` flag is
-- read into the classes, which the source's patterns hold as ASCII letters only.
pub mod Classes
pub mod Anchored
pub mod Complete
pub mod Pieces
pub mod Sound
use kube_diagnostics_mcp.Common.{
  ℕ, zero, suc, ◌+◌, ◌-◌, ◌≡◌, Bool, true, false, not, ◌&&◌, Option, none, some, List, [], ◌∷◌,
  ◌++◌, ◌==◌, if◌then◌else◌, is_some, length, take, Text,
}
use kube_diagnostics_mcp.Regex.Classes.{is_word, lower}

-- A repetition repeats a class, between a least and (if any) a most number of times.
pub data Regex : Type 0 where
  empty : Regex
  char : (ℕ → Bool) → Regex
  seq : Regex → Regex → Regex
  alt : Regex → Regex → Regex
  rep : Bool → ℕ → Option ℕ → (ℕ → Bool) → Regex
  group : ℕ → Regex → Regex
  start finish boundary : Regex
  ahead : Bool → Regex → Regex

-- The captures that are set, the latest first.
abbrev pub Captures : Type 0
Captures = List (ℕ × Text)

-- Where a match ends: the text before it, backwards, and the text after it.
pub record Hit : Type 0 where
  pub captures : Captures
  pub before : Text
  pub after : Text

abbrev pub Cont : Type 0
Cont = Text → Text → Option Hit

-- `p*`, `p+` and `x?`
abbrev pub many : (ℕ → Bool) → Regex
many p = rep true 0 none p

abbrev pub many1 : (ℕ → Bool) → Regex
many1 p = rep true 1 none p

abbrev pub opt : Regex → Regex
opt x = alt x empty

-- A literal, and one under the `i` flag.
abbrev pub lit : Text → Regex
lit [] = empty
lit (c ∷ s) = seq (char (λ d. d == c)) (lit s)

abbrev pub lit_i : Text → Regex
lit_i [] = empty
lit_i (c ∷ s) = seq (char (λ d. lower d == c)) (lit_i s)

-- `x|y|…`, and a sequence
abbrev pub any_of : Regex → List Regex → Regex
any_of x [] = x
any_of x (y ∷ l) = alt x (any_of y l)

abbrev pub seqs : List Regex → Regex
seqs [] = empty
seqs (x ∷ l) = seq x (seqs l)

abbrev pub may_repeat : Option ℕ → Bool
may_repeat none = true
may_repeat (some n) = not (n == 0)

abbrev pub one_less : Option ℕ → Option ℕ
one_less none = none
one_less (some n) = some (n - 1)

abbrev pub word_before : Text → Bool
word_before [] = false
word_before (c ∷ s) = is_word c

-- `\b`
abbrev pub at_boundary : Text → Text → Bool
at_boundary b r = if word_before b then not (word_before r) else word_before r

-- A greedy repetition tries to go on first, a lazy one tries to stop first.
abbrev pub prefer : Bool → Option Hit → Option Hit → Option Hit
prefer true more stop = elim more [ some h ↦ some h | none ↦ stop ]
prefer false more stop = elim stop [ some h ↦ some h | none ↦ more ]

unfoldable pub run_rep : Bool → (ℕ → Bool) → ℕ → Option ℕ → Text → Text → Cont → Option Hit
run_rep g p lo hi b [] k = if lo == 0 then k b [] else none
run_rep g p lo hi b (c ∷ r) k =
    let further = run_rep g p (lo - 1) (one_less hi) (c ∷ b) r k in
    let more : Option Hit = elim (p c && may_repeat hi) [ true ↦ further | false ↦ none ] in
    let stop : Option Hit = if lo == 0 then k b (c ∷ r) else none in prefer g more stop

-- The prefix of `r` that ends where `r'` begins.
abbrev pub taken : Text → Text → Text
taken r r' = take (length r - length r') r

abbrev pub hit : Captures → Cont
hit cs b r = some (record { captures = cs; before = b; after = r })

-- A lookahead starts with no captures and keeps none: the source's hold no group.
unfoldable pub run : Regex → Captures → Text → Text → (Captures → Cont) → Option Hit
unfolding take
run empty cs b r k = k cs b r
run (char p) cs b [] k = none
run (char p) cs b (c ∷ r) k = if p c then k cs (c ∷ b) r else none
run (seq x y) cs b r k = run x cs b r (λ cs' b' r'. run y cs' b' r' k)
run (alt x y) cs b r k =
    let other = run y cs b r k in elim (run x cs b r k) [ some h ↦ some h | none ↦ other ]
run (rep g lo hi p) cs b r k = run_rep g p lo hi b r (k cs)
run (group n x) cs b r k = run x cs b r (λ cs' b' r'. k ((n, taken r r') ∷ cs') b' r')
run start cs [] r k = k cs [] r
run start cs (c ∷ b) r k = none
run finish cs b [] k = k cs b []
run finish cs b (c ∷ r) k = none
run boundary cs b r k = if at_boundary b r then k cs b r else none
run (ahead wanted x) cs b r k =
    let found = is_some (run x [] b r hit) in
    if found then (if wanted then k cs b r else none) else (if wanted then none else k cs b r)

-- A match that begins here.
unfoldable pub match_at : Regex → Text → Text → Option Hit
unfolding run run_rep
match_at x b r = run x [] b r hit

-- `x.test(s)`, for a regular expression without the `g` flag
unfoldable pub test_from : Regex → Text → Text → Bool
test_from x b [] = is_some (match_at x b [])
test_from x b (c ∷ r) =
    let later = test_from x (c ∷ b) r in
    elim (match_at x b (c ∷ r)) [ some h ↦ true | none ↦ later ]

unfoldable pub test : Regex → Text → Bool
unfolding test_from match_at
test x s = test_from x [] s

-- `x.exec(s)`, for a regular expression without the `g` flag: the match and its captures
unfoldable pub exec_from : Regex → Text → Text → Option (Text × Hit)
exec_from x b [] = elim (match_at x b []) [ some h ↦ some ([], h) | none ↦ none ]
exec_from x b (c ∷ r) =
    let later = exec_from x (c ∷ b) r in
    elim (match_at x b (c ∷ r)) [ some h ↦ some (taken (c ∷ r) h.after, h) | none ↦ later ]

unfoldable pub exec : Regex → Text → Option (Text × Hit)
unfolding exec_from match_at
exec x s = exec_from x [] s

-- `m[n]`; a group that took no part is `undefined`
unfoldable pub capture : ℕ → Captures → Option Text
capture n [] = none
capture n ((i, t) ∷ cs) = if i == n then some t else capture n cs

-- The matches of the `g` loop, in order, with what stands between them; fuel counts the rounds.
pub data Piece : Type 0 where
  plain : ℕ → Piece
  found : Text → Captures → Piece

abbrev pub last_piece : Option Hit → List Piece
last_piece none = []
last_piece (some h) = found [] h.captures ∷ []

abbrev pub next_piece :
    ℕ → Text → (Unit {0} → List Piece) → (Hit → List Piece) → Option Hit → List Piece
next_piece c r skip rest none = skip tt
next_piece c r skip rest (some h) =
    if length h.after == suc (length r)
    then found [] h.captures ∷ skip tt
    else found (taken (c ∷ r) h.after) h.captures ∷ rest h

unfoldable pub pieces : ℕ → Regex → Text → Text → List Piece
pieces zero x b r = []
pieces (suc n) x b [] = last_piece (match_at x b [])
pieces (suc n) x b (c ∷ r) =
    next_piece c r (λ _. plain c ∷ pieces n x (c ∷ b) r) (λ h. pieces n x h.before h.after)
      (match_at x b (c ∷ r))

unfoldable pub render : (Text → Captures → Text) → List Piece → Text
render f [] = []
render f (plain c ∷ ps) = c ∷ render f ps
render f (found m cs ∷ ps) = f m cs ++ render f ps

-- `s.replace(x, f)`, for a regular expression without the `g` flag
unfoldable pub replace_once_from : Regex → (Text → Captures → Text) → Text → Text → Text
unfolding take
replace_once_from x f b [] = elim (match_at x b []) [ some h ↦ f [] h.captures | none ↦ [] ]
replace_once_from x f b (c ∷ r) =
    let later = replace_once_from x f (c ∷ b) r in
    elim (match_at x b (c ∷ r)) [
      | some h ↦ f (taken (c ∷ r) h.after) h.captures ++ h.after
      | none ↦ c ∷ later
    ]

unfoldable pub replace_once : Regex → (Text → Captures → Text) → Text → Text
unfolding replace_once_from match_at
replace_once x f s = replace_once_from x f [] s

-- `s.replace(x, f)`, for a regular expression with the `g` flag; a round consumes a code unit or
-- is the last, so that one round more than the length is enough
unfoldable pub replace : Regex → (Text → Captures → Text) → Text → Text
unfolding pieces render match_at
replace x f s = render f (pieces (suc (length s)) x [] s)
