-- ===== src/Probe/AccessLog/Paths.antt =====
-- src/probe/accesslog.ts: `normalizePath` and the patterns of suspicious paths.
use kube_diagnostics_mcp.Common.{true, ◌||◌, none, List, [], ◌∷◌, Text, txt}
use kube_diagnostics_mcp.Regex.{
  Regex, char, seq, alt, rep, boundary, lit, lit_i, any_of, seqs, many, replace,
}
use kube_diagnostics_mcp.Regex.Classes.{is_digit, is_hex, is_space, one_of}
use kube_diagnostics_mcp.Rum.Routes.{without_ids, segment_end, constant}

-- `/\/[0-9a-f]{16,}(?=\/|$)/gi`
abbrev pub hash_segment : Regex
hash_segment = seqs (lit (b'/' ∷ []) ∷ rep true 16 none is_hex ∷ segment_end ∷ [])

unfoldable pub normalize_path : Text → Text
unfolding without_ids replace txt
normalize_path path = replace hash_segment (constant (txt "/:hash")) (without_ids path)

abbrev words : Text → List Text → Regex
words w l = any_of (lit_i w) (lits l)
  where
    lits : List Text → List Regex
    lits [] = []
    lits (w ∷ l) = lit_i w ∷ lits l

-- The patterns of suspicious paths, in the order in which they are tried.
unfoldable pub suspicious : List (Regex × Text)
unfolding txt one_of
suspicious =
    (
      seq (lit (txt "/"))
          (words (txt "wp-admin") (txt "wp-login.php" ∷ txt "xmlrpc.php" ∷ txt "wp-content" ∷ [])),
      txt "WordPress probing",
    )
    ∷ (
      any_of (seq (lit_i (txt "/.env")) boundary) (
          seq (lit_i (txt "/.git")) boundary
          ∷ seq (lit_i (txt "/.aws")) boundary
          ∷ seq (lit_i (txt "/.ssh")) boundary
          ∷ []),
      txt "dotfile/secret probing",
    )
    ∷ (
      seqs (
          lit (txt "/")
          ∷ words (txt "phpmyadmin") (txt "pma" ∷ txt "adminer" ∷ [])
          ∷ boundary
          ∷ []),
      txt "DB admin probing",
    )
    ∷ (
      seqs (
          lit (txt "/")
          ∷ words (txt "actuator")
              (txt "env" ∷ txt "heapdump" ∷ txt "threaddump" ∷ txt "jolokia" ∷ [])
          ∷ boundary
          ∷ []),
      txt "management endpoint access",
    )
    ∷ (
      alt
          (seqs (
            lit (txt "/")
            ∷ words (txt "cgi-bin") (txt "shell" ∷ txt "cmd" ∷ txt "eval" ∷ [])
            ∷ boundary
            ∷ []))
          (lit (txt "../")),
      txt "path traversal / RCE probing",
    )
    ∷ (
      seqs (
          any_of (lit (txt "%27")) (lit (txt "%22") ∷ lit (txt "'") ∷ lit (txt "\"") ∷ [])
          ∷ many is_space
          ∷ words (txt "or") (txt "and" ∷ [])
          ∷ many is_space
          ∷ char (λ c. is_digit c || one_of (txt "'\"") c)
          ∷ []),
      txt "SQL injection pattern",
    )
    ∷ (words (txt "<script") (txt "%3cscript" ∷ []), txt "XSS pattern")
    ∷ []
