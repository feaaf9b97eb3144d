-- ===== src/Guard/Names.antt =====
-- Which texts the name checks accept.
use kube_diagnostics_mcp.Common.{
  ℕ, ◌≤◌, ◌≡◌, refl, ◌↔◌, Bool, true, false, Text, All, length, ok, ensure,
}
use kube_diagnostics_mcp.Guard.{
  GuardError, dash_class, name_class, host_class, selector_class, trace_class, dns_label, k8s_name,
  label_selector, hostname, trace_id, assert_namespace, assert_name, assert_container_name,
  assert_label_selector, assert_hostname, assert_trace_id,
}
use kube_diagnostics_mcp.Regex.{test}
use kube_diagnostics_mcp.Regex.Anchored.{IsEdged, test-edged, test-all_of}
use kube_diagnostics_mcp.Regex.Classes.{is_lower_alnum, is_alnum}

ensure-ok_iff : (b : Bool) (e : GuardError) (s : Text) → (ensure b e s ≡ ok s) ↔ (b ≡ true)
ensure-ok_iff true e s = (λ h. refl, λ h. refl)
ensure-ok_iff false e s = (λ h. cc, λ h. cc)

accepts :
    {P : Type 0} (b : Bool) (e : GuardError) (s : Text) → (b ≡ true) ↔ P → (ensure b e s ≡ ok s) ↔ P
accepts b e s p = (λ h. p.0 ((ensure-ok_iff b e s).0 h), λ h. (ensure-ok_iff b e s).1 (p.1 h))

dash_of_alnum : (c : ℕ) → is_lower_alnum c ≡ true → dash_class c ≡ true
dash_of_alnum c h = rw h

name_of_alnum : (c : ℕ) → is_lower_alnum c ≡ true → name_class c ≡ true
name_of_alnum c h = rw h

host_of_alnum : (c : ℕ) → is_alnum c ≡ true → host_class c ≡ true
host_of_alnum c h = rw h

-- A DNS label of RFC 1123, as the comment on the pattern says: 1 to 63 lowercase alphanumerics and
-- dashes that start and end with an alphanumeric.
abbrev pub IsDnsLabel : Text → Type 0
IsDnsLabel = IsEdged is_lower_alnum dash_class 63

abbrev pub IsK8sName : Text → Type 0
IsK8sName = IsEdged is_lower_alnum name_class 253

abbrev pub IsHostname : Text → Type 0
IsHostname = IsEdged is_alnum host_class 253

-- Namespaces and container names are accepted exactly if they are DNS labels (1 to 63 lowercase
-- alphanumerics and dashes, alphanumeric at both ends), names exactly if they are 1 to 253
-- lowercase alphanumerics, dashes and dots, alphanumeric at both ends, and host names exactly if
-- they are so with letters of either case; what is accepted is returned unchanged.
pub name_checks_iff :
    (s what : Text)
    → ((assert_namespace s ≡ ok s) ↔ IsDnsLabel s)
      × ((assert_container_name s ≡ ok s) ↔ IsDnsLabel s)
      × ((assert_name s what ≡ ok s) ↔ IsK8sName s)
      × ((assert_hostname s ≡ ok s) ↔ IsHostname s)
unfolding assert_namespace assert_container_name assert_name assert_hostname
name_checks_iff s what = (
  accepts (test dns_label s) _ s (test-edged is_lower_alnum dash_class dash_of_alnum 61 s),
  accepts (test dns_label s) _ s (test-edged is_lower_alnum dash_class dash_of_alnum 61 s),
  accepts (test k8s_name s) _ s (test-edged is_lower_alnum name_class name_of_alnum 251 s),
  accepts (test hostname s) _ s (test-edged is_alnum host_class host_of_alnum 251 s),
)

-- A label selector is accepted exactly if it is 1 to 512 characters of the selector class, and a
-- trace id exactly if it is 8 to 64 alphanumerics and dashes.
pub class_checks_iff :
    (s : Text)
    → ((assert_label_selector s ≡ ok s)
        ↔ (All (λ c. selector_class c ≡ true) s × (1 ≤ length s) × (length s ≤ 512)))
      × ((assert_trace_id s ≡ ok s)
          ↔ (All (λ c. trace_class c ≡ true) s × (8 ≤ length s) × (length s ≤ 64)))
unfolding assert_label_selector assert_trace_id
class_checks_iff s = (
  accepts (test label_selector s) _ s (test-all_of selector_class 1 512 s),
  accepts (test trace_id s) _ s (test-all_of trace_class 8 64 s),
)
