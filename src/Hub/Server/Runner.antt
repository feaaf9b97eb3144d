-- ===== src/Hub/Server/Runner.antt =====
-- src/hub/server.ts: the size of an answer, and what the audit log keeps out.
use kube_diagnostics_mcp.Common.{
  List, [], ◌∷◌, ℕ, ◌+◌, ◌≤◌, ◌≡◌, ◌⊎◌, inl, inr, Text, txt, length, length-append, length-take,
  ltb, Bool-cases, arith, ok, none,
}
use kube_diagnostics_mcp.Config.{HubConfig}
use kube_diagnostics_mcp.Hub.Server.{truncation_note, capped_text, run_tool}
use kube_diagnostics_mcp.Json.{Value, undefined, str}
use kube_diagnostics_mcp.Sanitize.{sanitize_deep}
use kube_diagnostics_mcp.Strings.{slice_to}

capped_text-length :
    (most : ℕ) (text : Text) → length (capped_text most text) ≤ most + length (truncation_note most)
unfolding capped_text
capped_text-length most text = elim (Bool-cases (ltb most (length text))) [
  | inl long ↦ rw long (
      omega
        (arith, length-append (slice_to most text) (truncation_note most), length-take most text))
  | inr short ↦ rw short (ground arith)
]

-- The text in which a value that a tool returns is written is at most as long as the limit of the
-- settings and the note on the truncation together. (That of an error that it throws is not capped.)
pub run_tool-length :
    (stringify : Value → Text) (c : HubConfig) (v : Value)
    → length (run_tool stringify c (ok v)).text
      ≤ c.max_result_bytes + length (truncation_note c.max_result_bytes)
unfolding run_tool
run_tool-length stringify c v =
    capped_text-length c.max_result_bytes (stringify (sanitize_deep v none))

-- A value of the audit log is missing or the mark.
unfoldable pub Omitted : Value → Type 0
Omitted v = (v ≡ undefined) ⊎ (v ≡ str (txt "<omitted>"))

-- The arguments that hold free text.
abbrev pub free_text_args : List Text
unfolding txt
free_text_args = txt "grep" ∷ txt "query" ∷ txt "url" ∷ txt "name" ∷ []
