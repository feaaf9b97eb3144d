-- ===== src/Sensitive/Luhn.antt =====
-- src/security/sensitive.ts: what the Luhn check finds out.
use mathlib.Core.List.{append_assoc}
use kube_diagnostics_mcp.Common.{
  ℕ, ◌+◌, ◌-◌, ◌%◌, ◌<◌, ◌≤◌, ◌≡◌, ◌≢◌, ◌∙◌, refl, sym, ap, Bool, Bool-cases, inl, inr, true, false,
  not, ◌||◌, ◌==◌, List, [], ◌∷◌, ◌++◌, All, filter, length, Text, arith,
}
use kube_diagnostics_mcp.Regex.{test}
use kube_diagnostics_mcp.Regex.Anchored.{all_of, test-all_of}
use kube_diagnostics_mcp.Regex.Classes.{is_digit, is_space}
use kube_diagnostics_mcp.Sensitive.Masks.{
  share, luhn_sum, digits_from_last, without_gaps, luhn_valid,
}

share_injective : (b : Bool) (d e : ℕ) → d < 10 → e < 10 → share b d % 10 ≡ share b e % 10 → d ≡ e
share_injective false d e p q h = omega arith
share_injective true d e p q h = ground arith

cancel_left : (s x y : ℕ) → (s + x) % 10 ≡ (s + y) % 10 → x % 10 ≡ y % 10
cancel_left s x y h = omega arith

cancel_right : (x y s : ℕ) → (x + s) % 10 ≡ (y + s) % 10 → x % 10 ≡ y % 10
cancel_right x y s h = omega arith

equal_digit :
    (doubled : Bool) (before after : List ℕ) (d e : ℕ)
    → d < 10
    → e < 10
    → luhn_sum doubled (before ++ (d ∷ after)) % 10 ≡ luhn_sum doubled (before ++ (e ∷ after)) % 10
    → d ≡ e
unfolding luhn_sum
equal_digit doubled [] after d e p q h =
    share_injective doubled d e p q
      (cancel_right (share doubled d) (share doubled e) (luhn_sum (not doubled) after) h)
equal_digit doubled (b ∷ before) after d e p q h = equal_digit (not doubled) before after d e p q (
    cancel_left (share doubled b) (luhn_sum (not doubled) (before ++ (d ∷ after)))
      (luhn_sum (not doubled) (before ++ (e ∷ after))) h)

digits_from_last-acc :
    (s : Text) (acc : List ℕ) → digits_from_last s acc ≡ digits_from_last s [] ++ acc
unfolding digits_from_last
digits_from_last-acc [] acc = refl
digits_from_last-acc (c ∷ s) acc =
    digits_from_last-acc s ((c - b'0') ∷ acc)
    ∙ (sym (append_assoc (digits_from_last s []) ((c - b'0') ∷ []) acc)
        ∙ ap (λ (l : List ℕ). l ++ acc) (sym (digits_from_last-acc s ((c - b'0') ∷ []))))

digits_from_last-append :
    (s t : Text) (c : ℕ) (acc : List ℕ)
    → digits_from_last (s ++ (c ∷ t)) acc
      ≡ digits_from_last t [] ++ ((c - b'0') ∷ digits_from_last s acc)
unfolding digits_from_last
digits_from_last-append [] t c acc = digits_from_last-acc t ((c - b'0') ∷ acc)
digits_from_last-append (a ∷ s) t c acc = digits_from_last-append s t c ((a - b'0') ∷ acc)

no_gap : (c : ℕ) → is_digit c ≡ true → not (is_space c || c == b'-') ≡ true
no_gap c h = ground arith

without_gaps-digit :
    (s t : Text) (c : ℕ)
    → is_digit c ≡ true
    → without_gaps (s ++ (c ∷ t)) ≡ without_gaps s ++ (c ∷ without_gaps t)
unfolding without_gaps filter
without_gaps-digit [] t c h = rw (no_gap c h) refl
without_gaps-digit (a ∷ s) t c h = elim (Bool-cases (not (is_space a || a == b'-'))) [
  | inl kept ↦ rw kept (ap (λ (l : Text). a ∷ l) (without_gaps-digit s t c h))
  | inr dropped ↦ rw dropped (without_gaps-digit s t c h)
]

-- What the check accepts has 13 to 19 characters without the gaps, all of them digits, and the sum
-- of the digits is a multiple of ten.
luhn_valid-digits :
    (s : Text)
    → luhn_valid s ≡ true
    → (13 ≤ length (without_gaps s))
      × (length (without_gaps s) ≤ 19)
      × All (λ c. is_digit c ≡ true) (without_gaps s)
      × (luhn_sum false (digits_from_last (without_gaps s) []) % 10 ≡ 0)
unfolding luhn_valid
luhn_valid-digits s h = elim (Bool-cases (test (all_of is_digit 13 19) (without_gaps s))) [
  | inl fits ↦
      let (digits, low, high) = (test-all_of is_digit 13 19 (without_gaps s)).0 fits in
      (low, high, digits, ground arith)
  | inr no_digits ↦ absurd (ground arith)
]

sum_of_digits :
    (before after : Text) (d : ℕ)
    → is_digit d ≡ true
    → luhn_valid (before ++ (d ∷ after)) ≡ true
    → luhn_sum false (
          digits_from_last (without_gaps after) []
          ++ ((d - b'0') ∷ digits_from_last (without_gaps before) []))
        % 10
      ≡ 0
sum_of_digits before after d p h =
    let split_up =
      ap (λ (s : Text). digits_from_last s []) (without_gaps-digit before after d p)
      ∙ digits_from_last-append (without_gaps before) (without_gaps after) d [] in
    rw⁻¹ split_up (luhn_valid-digits (before ++ (d ∷ after)) h).3

digit_value : (d e : ℕ) → is_digit d ≡ true → is_digit e ≡ true → d - b'0' ≡ e - b'0' → d ≡ e
digit_value d e p q h = ground arith

small_value : (d : ℕ) → is_digit d ≡ true → d - b'0' < 10
small_value d p = ground arith

-- A text that the check accepts has 13 to 19 characters besides spaces and dashes, all of them
-- digits, and putting another digit in the place of one of its digits makes a text that the check
-- rejects.
pub luhn_valid_one_digit :
    (before after : Text) (d e : ℕ)
    → is_digit d ≡ true
    → is_digit e ≡ true
    → luhn_valid (before ++ (d ∷ after)) ≡ true
    → (13 ≤ length (filter (λ c. not (is_space c || c == b'-')) (before ++ (d ∷ after))))
      × (length (filter (λ c. not (is_space c || c == b'-')) (before ++ (d ∷ after))) ≤ 19)
      × All
          (λ c. is_digit c ≡ true)
          (filter (λ c. not (is_space c || c == b'-')) (before ++ (d ∷ after)))
      × (d ≢ e → luhn_valid (before ++ (e ∷ after)) ≡ false)
unfolding without_gaps
luhn_valid_one_digit before after d e p q h =
    let (low, high, digits, sum) = luhn_valid-digits (before ++ (d ∷ after)) h in
    (
      low,
      high,
      digits,
      λ differ. elim (Bool-cases (luhn_valid (before ++ (e ∷ after)))) [
        | inr rejected ↦ rejected
        | inl accepted ↦ absurd (
            differ (
              digit_value d e p q (
                equal_digit false (digits_from_last (without_gaps after) [])
                  (digits_from_last (without_gaps before) []) (d - b'0') (e - b'0')
                  (small_value d p) (small_value e q)
                  (sum_of_digits before after d p h
                    ∙ sym (sum_of_digits before after e q accepted)))))
      ],
    )
