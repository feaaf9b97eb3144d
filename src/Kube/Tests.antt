-- ===== src/Kube/Tests.antt =====
-- Runs of the client, and the theorem at a concrete call.
use kube_diagnostics_mcp.Common.{◌≡◌, refl, [], ◌∷◌, All, txt, err, includes, same}
use kube_diagnostics_mcp.Guard.{not_allowed}
use kube_diagnostics_mcp.Kube.{Kube, pods, list_namespaced, other_error, refused}
use kube_diagnostics_mcp.Kube.Client.{no_opts}
use kube_diagnostics_mcp.Kube.Methods.{list_pods, list_pods_all}
use kube_diagnostics_mcp.Kube.Operations.{run, all_pods, run-Scoped}
use kube_diagnostics_mcp.Kube.Scope.{IsScoped}
use kube_diagnostics_mcp.Regex.{test}

-- A client with two namespaces, of a cluster that does not answer.
abbrev two_spaces : Kube
unfolding txt
two_spaces = record {
  answers = λ api. err (other_error (txt "down"));
  namespaces = txt "dev" ∷ txt "test" ∷ [];
  timeout_ms = 15000;
}

outside_run : list_pods two_spaces (txt "prod") no_opts ≡ record {
  requests = [];
  result = err (refused (not_allowed (txt "prod") (txt "dev" ∷ txt "test" ∷ [])));
}
unfolding list_pods txt test includes same
outside_run = refl

everywhere_run :
    (list_pods_all two_spaces no_opts).requests
    ≡ list_namespaced pods (txt "dev") no_opts ∷ list_namespaced pods (txt "test") no_opts ∷ []
unfolding list_pods_all txt test includes same
everywhere_run = refl

run-Scoped_example : All (IsScoped two_spaces) (run two_spaces (all_pods no_opts)).requests
run-Scoped_example = run-Scoped two_spaces (all_pods no_opts)
