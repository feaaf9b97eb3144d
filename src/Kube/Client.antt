-- ===== src/Kube/Client.antt =====
-- src/k8s/client.ts: the private helpers of the client.
use kube_diagnostics_mcp.Common.{
  ℕ, Option, none, some, List, [], ◌∷◌, ◌++◌, Text, txt, is_empty, print, if◌then◌else◌, ◌==◌,
  Result, ok, err, ◌>>=◌,
}
use kube_diagnostics_mcp.Guard.{GuardError, assert_namespace_allowed, assert_label_selector}
use kube_diagnostics_mcp.Json.{Value, member, arr, Items, nil, cons}
use kube_diagnostics_mcp.Kube.{
  Resource, ListOpts, Api, list_namespaced, Failure, api_exception, other_error, late, ClientError,
  refused, kube_error, Kube, Run,
}
use kube_diagnostics_mcp.Sanitize.Rules.{redact_text}

abbrev pub hint : ℕ → Text
unfolding txt
hint code =
    if code == 403
    then txt " (RBAC denied: this is expected for anything the hub's read-only role does not grant)"
    else if code == 404
    then txt " (not found)"
    else []

-- `toKubeError(err, what)`, and the error of `withTimeout`
unfoldable pub to_kube_error : Kube → Text → Failure → ClientError
unfolding txt print redact_text
to_kube_error k what (api_exception code reason) =
    kube_error
      (redact_text (
        what
        ++ (txt ": HTTP "
            ++ (print code
                ++ (hint code ++ (if is_empty reason then [] else txt " - " ++ reason))))))
      (some code)
to_kube_error k what (other_error message) =
    kube_error (redact_text (what ++ (txt ": " ++ message))) none
to_kube_error k what late =
    kube_error
      (txt "Kubernetes API call timed out after " ++ (print k.timeout_ms ++ (txt "ms: " ++ what)))
      (some 504)

unfoldable pub settle :
    Kube → Text → (Value → Value) → Result Failure Value → Result ClientError Value
unfolding to_kube_error
settle k what f (ok v) = ok (f v)
settle k what f (err e) = err (to_kube_error k what e)

-- `this.call(what, …)`, where the guard's checks come before the one request.
unfoldable pub call : Kube → Text → (Value → Value) → Result GuardError Api → Run
unfolding settle
call k what f (err e) = record { requests = []; result = err (refused e) }
call k what f (ok api) = record { requests = api ∷ []; result = settle k what f (k.answers api) }

-- `this.ns(namespace)`
abbrev pub ns : Kube → Text → Result GuardError Text
ns k namespace = assert_namespace_allowed namespace k.namespaces

-- `s ? check(s) : undefined`
unfoldable pub checked :
    (Text → Result GuardError Text) → Option Text → Result GuardError (Option Text)
checked check none = ok none
checked check (some []) = ok none
checked check (some (c ∷ s)) = (do t ← check (c ∷ s); ok (some t))

-- `this.listArgs(namespace, opts)`, in the request that takes them.
unfoldable pub list_args : Kube → Resource → Text → ListOpts → Result GuardError Api
unfolding assert_namespace_allowed checked assert_label_selector
list_args k resource namespace opts = do
  space ← ns k namespace
  selector ← checked assert_label_selector opts.label_selector
  ok (list_namespaced resource space (record opts { label_selector = selector }))

abbrev pub no_opts : ListOpts
no_opts = record { label_selector = none; field_selector = none; limit = none }

-- `{ namespace: this.ns(namespace) }`
unfoldable pub space_args : Kube → Resource → Text → Result GuardError Api
unfolding assert_namespace_allowed
space_args k resource namespace = do
  space ← ns k namespace
  ok (list_namespaced resource space no_opts)

-- `(await …).items`
unfoldable pub items_of : Value → Value
unfolding member txt
items_of v = member (txt "items") v

append_items : Items → Items → Items
append_items nil ys = ys
append_items (cons v xs) ys = cons v (append_items xs ys)

-- Two arrays of results made one, as `flatMap` does; what a check throws comes before a failed
-- request, since the checks are made first.
unfoldable pub joined :
    Result ClientError Value → Result ClientError Value → Result ClientError Value
unfolding append_items
joined (ok (arr xs)) (ok (arr ys)) = ok (arr (append_items xs ys))
joined (ok v) (ok w) = ok w
joined (ok v) (err e) = err e
joined (err e) (err (refused g)) = err (refused g)
joined (err e) (ok w) = err e
joined (err e) (err (kube_error m s)) = err e

-- The request for one namespace, ahead of the rest.
unfoldable pub one : Kube → Text → Result GuardError Api → Run → Run
unfolding joined settle items_of
one k what (err e) rest = record { requests = []; result = err (refused e) }
one k what (ok api) rest = record {
  requests = api ∷ rest.requests;
  result = joined (settle k what items_of (k.answers api)) rest.result;
}

-- `perNs` for each namespace of the list: where a check throws, the requests for the namespaces
-- before it are under way, and nothing behind it is asked for.
unfoldable pub per_namespace : Kube → Text → (Text → Result GuardError Api) → List Text → Run
unfolding one
per_namespace k what args [] = record { requests = []; result = ok (arr nil) }
per_namespace k what args (space ∷ spaces) =
    one k what (args space) (per_namespace k what args spaces)

-- The choice that `acrossNamespaces` makes by its allow-list.
unfoldable pub across_list : Kube → Text → Api → (Text → Result GuardError Api) → List Text → Run
unfolding call items_of per_namespace
across_list k what all args [] = call k what items_of (ok all)
across_list k what all args (a ∷ l) = per_namespace k what args (a ∷ l)

-- `this.acrossNamespaces(all, perNs)`
unfoldable pub across_namespaces : Kube → Text → Api → (Text → Result GuardError Api) → Run
unfolding across_list
across_namespaces k what all args = across_list k what all args k.namespaces
