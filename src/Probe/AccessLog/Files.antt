-- ===== src/Probe/AccessLog/Files.antt =====
-- src/probe/accesslog.ts: `summarizeAccessLogFile`. The bytes of the file are an argument, or what
-- was thrown when it was opened; the decoding of UTF-8 is an argument as well.
use kube_diagnostics_mcp.Common.{
  ℕ, ◌+◌, ◌-◌, ◌*◌, ◌/◌, Bool, false, not, ◌&&◌, Option, none, some, List, [], ◌∷◌, ◌++◌, map, Text,
  txt, is_empty, if◌then◌else◌, ◌==◌, length, drop, filter, is_finite, less, print, Result, ok, err,
  or_else,
}
use kube_diagnostics_mcp.Json.{Value, str, undefined}
use kube_diagnostics_mcp.Probe.AccessLog.{Js, AccessRecord, parse_access_line, is_truthy}
use kube_diagnostics_mcp.Probe.AccessLog.Summary.{AccessLogSummary, summarize_access_records}
use kube_diagnostics_mcp.Probe.AccessLog.Rounds.{TypeError, no_string}
use kube_diagnostics_mcp.Regex.{
  Regex, char, group, start, finish, lit, seq, seqs, many1, Captures, capture, replace_once,
}
use kube_diagnostics_mcp.Regex.Classes.{is_digit, is_word, one_of}
use kube_diagnostics_mcp.Strings.{split}

-- `text.slice(text.indexOf("\n") + 1)`: with no line break the index is -1 and nothing is cut
after_break : Text → Option Text
after_break [] = none
after_break (c ∷ s) = let rest = after_break s in if c == b'\n' then some s else rest

unfoldable pub first_whole_line : Text → Text
unfolding after_break
first_whole_line text = or_else (after_break text) text

-- `/^(\d+)\/(\w+)\/(\d+):(\d+:\d+:\d+) ([+-]\d+)$/`
abbrev pub log_time : Regex
unfolding txt one_of
log_time = seqs (
    start
    ∷ group 1 (many1 is_digit)
    ∷ lit (txt "/")
    ∷ group 2 (many1 is_word)
    ∷ lit (txt "/")
    ∷ group 3 (many1 is_digit)
    ∷ lit (txt ":")
    ∷ group 4 (
        seqs
          (many1 is_digit ∷ lit (txt ":") ∷ many1 is_digit ∷ lit (txt ":") ∷ many1 is_digit ∷ []))
    ∷ lit (txt " ")
    ∷ group 5 (seq (char (one_of (txt "+-"))) (many1 is_digit))
    ∷ finish
    ∷ [])

spaced : Text → Captures → Text
unfolding capture
spaced m cs =
    let part = λ (n : ℕ). or_else (capture n cs) [] in
    part 1 ++ b' ' ∷ (part 2 ++ b' ' ∷ (part 3 ++ b' ' ∷ (part 4 ++ b' ' ∷ part 5)))

module _ (js : Js) where
  -- Whether a record is older than the cutoff; a truthy time that is no string has no `replace`.
  unfoldable pub is_old : Option ℕ → Value → Result TypeError Bool
  unfolding replace_once spaced
  is_old none time = ok false
  is_old (some cutoff) (str s) =
      let t = js.date_parse (replace_once log_time spaced s) in
      ok (not (cutoff == 0) && not (is_empty s) && is_finite t && less t cutoff)
  is_old (some cutoff) time =
      if not (cutoff == 0) && is_truthy time then err no_string else ok false

  -- The records that are kept, with their lines.
  unfoldable pub kept_line :
      Option ℕ → Text → List (AccessRecord × Text) → Result TypeError (List (AccessRecord × Text))
  unfolding is_old parse_access_line
  kept_line cutoff line kept = elim (parse_access_line js line) [
    | none ↦ ok kept
    | some r ↦ elim (is_old cutoff r.time) [
      | err e ↦ err e
      | ok old ↦ ok (if old then kept else kept ++ (r, line) ∷ [])
    ]
  ]

  unfoldable pub kept_lines :
      Option ℕ
      → List Text
      → List (AccessRecord × Text)
      → Result TypeError (List (AccessRecord × Text))
  unfolding kept_line
  kept_lines cutoff [] kept = ok kept
  kept_lines cutoff (line ∷ lines) kept = elim (kept_line cutoff line kept) [
    | err e ↦ err e
    | ok kept' ↦ kept_lines cutoff lines kept'
  ]

  -- `sinceSeconds ? Date.now() - sinceSeconds * 1000 : undefined`; the window is not longer than the
  -- time since 1970
  abbrev pub cutoff_of : ℕ → Option ℕ → Option ℕ
  cutoff_of now none = none
  cutoff_of now (some since) = if since == 0 then none else some (now - since * 1000)

  -- `Math.round(maxBytes / 1024 / 1024)`
  abbrev pub mebibytes : ℕ → ℕ
  mebibytes n = (n + 524288) / 1048576

  abbrev pub tail_note : ℕ → ℕ → AccessLogSummary → AccessLogSummary
  tail_note from most s = if from == 0 then s else record s {
    note =
        some (txt "only the last " ++ (print (mebibytes most) ++ txt "MiB of the file were read"));
  }

  unfoldable pub unreadable : Text → AccessLogSummary
  unfolding txt
  unreadable message = record {
    available = false;
    note = some (txt "access log not readable: " ++ message);
    lines = 0;
    window_from = undefined;
    window_to = undefined;
    by_status_class = [];
    by_status = [];
    top_paths = [];
    by_upstream = [];
    client_abandoned499 = 0;
    request_vs_upstream_gap_p95_ms = none;
    suspicious_paths = [];
    sensitive = [];
  }

  unfoldable pub summarize_kept : List (AccessRecord × Text) → Result TypeError AccessLogSummary
  unfolding summarize_access_records
  summarize_kept kept =
      summarize_access_records js (map (λ (k : AccessRecord × Text). k.0) kept)
        (map (λ (k : AccessRecord × Text). k.1) kept)

  unfoldable pub lines_of : (List ℕ → Text) → ℕ → List ℕ → List Text
  unfolding first_whole_line split filter drop
  lines_of decode from bytes =
      let text = decode (drop from bytes) in
      filter (λ l. not (is_empty l))
        (split b'\n' (if from == 0 then text else first_whole_line text))

  unfoldable pub summarize_access_log_file :
      (List ℕ → Text) → ℕ → Result Text (List ℕ) → ℕ → Option ℕ → Result TypeError AccessLogSummary
  unfolding kept_lines summarize_kept unreadable lines_of print txt
  summarize_access_log_file decode now (err message) most since = ok (unreadable message)
  summarize_access_log_file decode now (ok bytes) most since =
      let from = length bytes - most in
      elim (kept_lines (cutoff_of now since) (lines_of decode from bytes) []) [
        | err e ↦ err e
        | ok kept ↦ elim (summarize_kept kept) [ err e ↦ err e | ok s ↦ ok (tail_note from most s) ]
      ]
