-- ===== src/Sanitize/Deep.antt =====
-- src/security/sanitize.ts: what deep sanitizing hides.
use kube_diagnostics_mcp.Common.{
  ◌≡◌, refl, ap, Option, some, List, [], ◌∷◌, Any, all, and-true, Text, txt, inl, inr, true,
}
use kube_diagnostics_mcp.Json.{Value, obj, str, arr, Items, nil, cons, Fields, end, field}
use kube_diagnostics_mcp.Regex.{test}
use kube_diagnostics_mcp.Sanitize.{
  hides, is_sensitive_key, sanitize_deep, sanitize_items, sanitize_fields,
}

-- Names under which settings, headers and environments keep a credential.
abbrev pub credential_names : List Text
unfolding txt
credential_names =
    txt "password"
    ∷ txt "passwd"
    ∷ txt "pwd"
    ∷ txt "secret"
    ∷ txt "token"
    ∷ txt "credentials"
    ∷ txt "Authorization"
    ∷ txt "apiKey"
    ∷ txt "api_key"
    ∷ txt "API_KEY"
    ∷ txt "access_token"
    ∷ txt "authToken"
    ∷ txt "client_secret"
    ∷ txt "clientSecret"
    ∷ txt "private-key"
    ∷ txt "connectionString"
    ∷ txt "certificate_key"
    ∷ txt "DATABASE_URL"
    ∷ txt "JDBC_URL"
    ∷ txt "DB_PASSWORD"
    ∷ txt "SPRING_DATASOURCE_PASSWORD"
    ∷ txt "spring.datasource.password"
    ∷ txt "GITHUB_TOKEN"
    ∷ txt "AWS_SECRET_ACCESS_KEY"
    ∷ txt "SECRET_VALUE"
    ∷ []

-- Two values that are equal but for strings whose nearest key is one of these names, through any
-- lists between the key and the string.
mutual
  pub data SameButHidden : Option Text → Value → Value → Type 0 where
    credential :
        {k s t : Text}
        → Any (λ name. k ≡ name) credential_names
        → SameButHidden (some k) (str s) (str t)
    equal_values : {h : Option Text} {v : Value} → SameButHidden h v v
    lists :
        {h : Option Text} {xs ys : Items} → SameItems h xs ys → SameButHidden h (arr xs) (arr ys)
    objects :
        {h : Option Text} {fs gs : Fields} → SameFields fs gs → SameButHidden h (obj fs) (obj gs)

  pub data SameItems : Option Text → Items → Items → Type 0 where
    none_left : {h : Option Text} → SameItems h nil nil
    item :
        {h : Option Text} {v w : Value} {xs ys : Items}
        → SameButHidden h v w
        → SameItems h xs ys
        → SameItems h (cons v xs) (cons w ys)

  pub data SameFields : Fields → Fields → Type 0 where
    no_fields : SameFields end end
    entry :
        {k : Text} {v w : Value} {fs gs : Fields}
        → SameButHidden (some k) v w
        → SameFields fs gs
        → SameFields (field k v fs) (field k w gs)

all_hide : all (λ name. hides (some name)) credential_names ≡ true
unfolding all is_sensitive_key test txt
all_hide = refl

one_hides :
    (k : Text) (names : List Text)
    → all (λ name. hides (some name)) names ≡ true
    → Any (λ name. k ≡ name) names
    → hides (some k) ≡ true
unfolding all
one_hides k [] a h = absurd h
one_hides k (name ∷ names) a (inl here) =
    rw here ((and-true (hides (some name)) (all (λ n. hides (some n)) names) a).0)
one_hides k (name ∷ names) a (inr later) =
    one_hides k names ((and-true (hides (some name)) (all (λ n. hides (some n)) names) a).1) later

credential-equal :
    (k s t : Text)
    → Any (λ name. k ≡ name) credential_names
    → sanitize_deep (str s) (some k) ≡ sanitize_deep (str t) (some k)
unfolding sanitize_deep
credential-equal k s t c = rw (one_hides k credential_names all_hide c) refl

mutual
  unfolding sanitize_deep

  hidden_equal :
      (h : Option Text) (v w : Value) → SameButHidden h v w → sanitize_deep v h ≡ sanitize_deep w h
  hidden_equal _ _ _ (credential {k} {s} {t} c) = credential-equal k s t c
  hidden_equal _ _ _ equal_values = refl
  hidden_equal _ _ _ (lists {h} {xs} {ys} s) = ap arr (items_equal h xs ys s)
  hidden_equal _ _ _ (objects {h} {fs} {gs} s) = ap obj (fields_equal fs gs s)

  items_equal :
      (h : Option Text) (xs ys : Items)
      → SameItems h xs ys
      → sanitize_items xs h ≡ sanitize_items ys h
  items_equal _ _ _ none_left = refl
  items_equal _ _ _ (item {h} {v} {w} {xs} {ys} s r) =
      rw (hidden_equal h v w s, items_equal h xs ys r) refl

  fields_equal : (fs gs : Fields) → SameFields fs gs → sanitize_fields fs ≡ sanitize_fields gs
  fields_equal _ _ no_fields = refl
  fields_equal _ _ (entry {k} {v} {w} {fs} {gs} s r) =
      rw (hidden_equal (some k) v w s, fields_equal fs gs r) refl

-- Two values that differ only in strings whose nearest key is one of twenty-five names of
-- credentials, at any depth and in lists too, come out of deep sanitizing equal: nothing of those
-- strings is left, not even whether they are the same.
pub sanitize_deep-hidden :
    (h : Option Text) (v w : Value) → SameButHidden h v w → sanitize_deep v h ≡ sanitize_deep w h
sanitize_deep-hidden h v w s = hidden_equal h v w s
