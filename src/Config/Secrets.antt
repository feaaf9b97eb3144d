-- ===== src/Config/Secrets.antt =====
-- src/config.ts: `summarize` shows no secret.
use kube_diagnostics_mcp.Common.{◌≡◌, refl, Option, none, some, Text, [], ◌∷◌, is_some}
use kube_diagnostics_mcp.Config.{
  AppConfig, hub, probe, DatadogConfig, SplunkConfig, Transport, stdio, http,
}
use kube_diagnostics_mcp.Config.Summary.{summarize, is_set, shown_auth}

-- A secret with every text but the empty one made the same.
unfoldable masked_text : Text → Text
masked_text [] = []
masked_text (c ∷ s) = b'*' ∷ []

unfoldable masked_token : Option Text → Option Text
unfolding masked_text
masked_token none = none
masked_token (some s) = some (masked_text s)

unfoldable masked_datadog : Option DatadogConfig → Option DatadogConfig
unfolding masked_text
masked_datadog none = none
masked_datadog (some d) =
    some (record d { api_key = masked_text d.api_key; app_key = masked_text d.app_key })

unfoldable masked_splunk : Option SplunkConfig → Option SplunkConfig
unfolding masked_text
masked_splunk none = none
masked_splunk (some s) = some (record s { token = masked_text s.token })

-- The settings with every token and key masked.
unfoldable pub masked : AppConfig → AppConfig
unfolding masked_token masked_datadog masked_splunk
masked (probe c) = probe (record c { token = masked_token c.token })
masked (hub c) = hub (record c {
  http_token = masked_token c.http_token;
  probe_token = masked_token c.probe_token;
  providers = record {
    prometheus_url = c.providers.prometheus_url;
    datadog = masked_datadog c.providers.datadog;
    splunk = masked_splunk c.providers.splunk;
  };
})

is_set-masked : (t : Option Text) → is_set (masked_token t) ≡ is_set t
unfolding masked_token masked_text
is_set-masked none = refl
is_set-masked (some []) = refl
is_set-masked (some (c ∷ s)) = refl

is_some-masked_datadog : (d : Option DatadogConfig) → is_some (masked_datadog d) ≡ is_some d
unfolding masked_datadog
is_some-masked_datadog none = refl
is_some-masked_datadog (some d) = refl

is_some-masked_splunk : (s : Option SplunkConfig) → is_some (masked_splunk s) ≡ is_some s
unfolding masked_splunk
is_some-masked_splunk none = refl
is_some-masked_splunk (some s) = refl

shown_auth-masked :
    (t : Transport) (token : Option Text) → shown_auth t (masked_token token) ≡ shown_auth t token
shown_auth-masked stdio token = refl
shown_auth-masked http token = rw (is_set-masked token)

-- The summary that is logged is the same after every token and key in the settings is replaced by
-- another text (an empty one by an empty one), so it depends on no secret.
pub summarize-masked : (c : AppConfig) → summarize (masked c) ≡ summarize c
unfolding summarize masked
summarize-masked (probe c) = rw (is_set-masked c.token)
summarize-masked (hub c) = rw (
  shown_auth-masked c.transport c.http_token,
  is_some-masked_datadog c.providers.datadog,
  is_some-masked_splunk c.providers.splunk,
)
