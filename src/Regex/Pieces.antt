-- ===== src/Regex/Pieces.antt =====
-- What the `g` loop leaves of a text: a match ends later in the same text, so that what stands
-- between the matches is taken from it.
use kube_diagnostics_mcp.Common.{
  ℕ, zero, suc, ◌≡◌, refl, inl, inr, Option, none, some, List, [], ◌∷◌, ◌==◌, Bool-cases, All,
  All-append, All-append_right, length, Text,
}
use kube_diagnostics_mcp.Regex.{
  Regex, empty, char, seq, alt, rep, group, start, finish, boundary, ahead, Captures, Hit, match_at,
  Piece, last_piece, next_piece, plain, found, pieces, render, replace,
}
use kube_diagnostics_mcp.Regex.Sound.{Match}
use kube_diagnostics_mcp.Regex.Complete.{match_at_sound}

module _ {ℓ} (P : ℕ → Type ℓ) where
  pub Match-All :
      (x : Regex) (cs : Captures) (b r : Text) (cs' : Captures) (b' r' : Text)
      → Match x cs b r cs' b' r'
      → All P r
      → All P r'
  Match-All empty cs b r cs' b' r' (_, _, e) h = rw e h
  Match-All (char p) cs b r cs' b' r' (c, _, e, _, _) h = (rw e at h).1
  Match-All (seq x y) cs b r cs' b' r' (ds, m, n, first, second) h =
      Match-All y ds m n cs' b' r' second (Match-All x cs b r ds m n first h)
  Match-All (alt x y) cs b r cs' b' r' (inl m) h = Match-All x cs b r cs' b' r' m h
  Match-All (alt x y) cs b r cs' b' r' (inr m) h = Match-All y cs b r cs' b' r' m h
  Match-All (rep g lo hi p) cs b r cs' b' r' (w, e, _, _, _, _, _) h =
      All-append_right P w r' (rw e at h)
  Match-All (group n x) cs b r cs' b' r' (ds, m, _) h = Match-All x cs b r ds b' r' m h
  Match-All start cs b r cs' b' r' (_, _, _, e) h = rw e h
  Match-All finish cs b r cs' b' r' (_, _, _, e) h = rw e h
  Match-All boundary cs b r cs' b' r' (_, _, _, e) h = rw e h
  Match-All (ahead w x) cs b r cs' b' r' (_, _, _, e) h = rw e h

  -- The characters between the matches.
  abbrev pub Between : List Piece → Type ℓ
  Between [] = Unit
  Between (plain c ∷ ps) = P c × Between ps
  Between (found m cs ∷ ps) = Between ps

  last_piece-Between : (o : Option Hit) → Between (last_piece o)
  last_piece-Between none = tt
  last_piece-Between (some h) = tt

  next_piece-Between :
      (c : ℕ) (r : Text) (skip : Unit {0} → List Piece) (rest : Hit → List Piece) (o : Option Hit)
      → Between (skip tt)
      → ((h : Hit) → o ≡ some h → Between (rest h))
      → Between (next_piece c r skip rest o)
  next_piece-Between c r skip rest none k l = k
  next_piece-Between c r skip rest (some h) k l =
      elim (Bool-cases (length h.after == suc (length r))) [
        | inl nothing ↦ rw nothing k
        | inr something ↦ rw something (l h refl)
      ]

  pieces-Between : (n : ℕ) (x : Regex) (b r : Text) → All P r → Between (pieces n x b r)
  unfolding pieces
  pieces-Between zero x b r h = tt
  pieces-Between (suc n) x b [] h = last_piece-Between (match_at x b [])
  pieces-Between (suc n) x b (c ∷ r) h =
      next_piece-Between c r (λ _. plain c ∷ pieces n x (c ∷ b) r)
        (λ hit. pieces n x hit.before hit.after) (match_at x b (c ∷ r))
        (h.0, pieces-Between n x (c ∷ b) r h.1)
        (λ hit e. pieces-Between n x hit.before hit.after (
          Match-All x [] b (c ∷ r) hit.captures hit.before hit.after (match_at_sound x b (c ∷ r) e)
            h))

  render-All :
      (f : Text → Captures → Text)
      → ((m : Text) (cs : Captures) → All P (f m cs))
      → (ps : List Piece) → Between ps
      → All P (render f ps)
  unfolding render
  render-All f g [] h = tt
  render-All f g (plain c ∷ ps) h = (h.0, render-All f g ps h.1)
  render-All f g (found m cs ∷ ps) h =
      All-append P (f m cs) (render f ps) (g m cs) (render-All f g ps h)

  -- If the text and every replacement are of characters in `P`, so is the result.
  pub replace-All :
      (x : Regex) (f : Text → Captures → Text) (s : Text)
      → ((m : Text) (cs : Captures) → All P (f m cs))
      → All P s
      → All P (replace x f s)
  unfolding replace
  replace-All x f s g h = render-All f g _ (pieces-Between (suc (length s)) x [] s h)
