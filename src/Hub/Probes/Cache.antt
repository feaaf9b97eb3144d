-- ===== src/Hub/Probes/Cache.antt =====
-- src/probe/client.ts: whom the client asks, and when it does not.
use kube_diagnostics_mcp.Common.{
  find, same, print, txt, ◌++◌, any, ◌==◌, [], ◌∷◌, ok-injective, ℕ, ◌+◌, ◌≡◌, refl, inl, inr, true,
  false, Option, none, some, Text, Map, get, put, or_else, ltb, Bool-cases, All, Result, ok, err,
  get-put, same_refl, arith,
}
use kube_diagnostics_mcp.Config.{HubConfig}
use kube_diagnostics_mcp.Hub.Model.{Pod, Container}
use kube_diagnostics_mcp.Hub.Model.Summary.{has_probe_container}
use kube_diagnostics_mcp.Hub.Probes.{
  port_of, recently_unreachable, Fetch, url_of, host_of, Unavailable, Param, ProbeRequest, Answer,
  replied, threw, Cache, negative_cache_ms, base_url, query_of, is_ok, settled, ask, get_from,
  get_based, fetch_from_probe,
}

-- The cache does not hold a base back at the time `now`.
abbrev pub IsFree : ℕ → Cache → Text → Type 0
IsFree now cache base = ltb now (or_else (get base cache) 0) ≡ false

-- The pod's own IP, in brackets where it is one of version 6, and a port.
pub data IsOwnAddress (p : Pod) (base : Text) : Type 0 where
  plain_ip :
      (ip : Text) (port : ℕ)
      → p.pod_ip ≡ some ip
      → base ≡ txt "http://" ++ (ip ++ (txt ":" ++ print port))
      → IsOwnAddress p base
  bracketed_ip :
      (ip : Text) (port : ℕ)
      → p.pod_ip ≡ some ip
      → base ≡ txt "http://" ++ ((txt "[" ++ (ip ++ txt "]")) ++ (txt ":" ++ print port))
      → IsOwnAddress p base

-- A request goes to the base of the pod, which has the sidecar, with the hub's token, at a time at
-- which that base is not held back.
pub record Allowed (c : HubConfig) (now : ℕ) (cache : Cache) (p : Pod) (r : ProbeRequest)
    : Type 0 where
  pub own_base : IsOwnAddress p r.base
  pub sidecar : has_probe_container p c.probe_container_name ≡ true
  pub free : IsFree now cache r.base
  pub own_token : r.token ≡ c.probe_token

base_url-sidecar :
    (c : HubConfig) (p : Pod) (base : Text)
    → base_url c p ≡ ok base
    → has_probe_container p c.probe_container_name ≡ true
unfolding base_url
base_url-sidecar c p base h = elim (Bool-cases (has_probe_container p c.probe_container_name)) [
  | inl there ↦ there
  | inr gone ↦ wrong (rw gone at h)
]
  where
    wrong :
        {e : Unavailable}
        → ◌≡◌ {A = Result Unavailable Text} (err e) (ok base)
        → has_probe_container p c.probe_container_name ≡ true
    wrong k = cc

url_of-IsOwnAddress :
    (c : HubConfig) (p : Pod) (o : Option Text) (base : Text)
    → p.pod_ip ≡ o
    → url_of c p o ≡ ok base
    → IsOwnAddress p base
unfolding url_of host_of
url_of-IsOwnAddress c p none base i h = cc
url_of-IsOwnAddress c p (some []) base i h = cc
url_of-IsOwnAddress c p (some (d ∷ ip)) base i h =
    let port =
      port_of
        (find (λ (k : Container). same k.name c.probe_container_name)
          (p.init_containers ++ p.containers))
        c.probe_port in
    elim (Bool-cases (any (λ x. x == b':') (d ∷ ip))) [
      | inl six ↦ bracketed_ip (d ∷ ip) port i (ok-injective (rw six at h))
      | inr four ↦ plain_ip (d ∷ ip) port i (ok-injective (rw four at h))
    ]

base_url-IsOwnAddress :
    (c : HubConfig) (p : Pod) (base : Text) → base_url c p ≡ ok base → IsOwnAddress p base
unfolding base_url
base_url-IsOwnAddress c p base h =
    elim (Bool-cases (has_probe_container p c.probe_container_name)) [
      | inl there ↦ url_of-IsOwnAddress c p p.pod_ip base refl (rw there at h)
      | inr gone ↦ wrong (rw gone at h)
    ]
  where
    wrong :
        {e : Unavailable}
        → ◌≡◌ {A = Result Unavailable Text} (err e) (ok base)
        → IsOwnAddress p base
    wrong k = cc

-- Nothing is requested, and the error that the base was unreachable a short time ago is thrown.
pub record Held (cache : Cache) (base : Text) (f : Fetch) : Type 0 where
  pub silent : f.requests ≡ []
  pub kept : f.cache ≡ cache
  pub failed : (ago left : ℕ) × (f.result ≡ err (recently_unreachable base ago left))

module _ (c : HubConfig) (answers : ProbeRequest → Answer) (now later : ℕ) where
  settled-All :
      (P : ProbeRequest → Type 0) (cache : Cache) (r : ProbeRequest) (a : Answer)
      → P r
      → All P (settled c answers now later cache r a).requests
  unfolding settled
  settled-All P cache r (replied status body) h = elim (Bool-cases (is_ok status)) [
    | inl good ↦ rw good (h, tt)
    | inr bad ↦ rw bad (h, tt)
  ]
  settled-All P cache r (threw message) h = (h, tt)

  module _ (cache : Cache) (p : Pod) (path : Text) (params : Map Param) where
    ask-Allowed :
        (base : Text)
        → base_url c p ≡ ok base
        → IsFree now cache base
        → All (Allowed c now cache p) (ask c answers now later cache base path params).requests
    unfolding ask
    ask-Allowed base h f =
        let r : ProbeRequest = record {
          base = base;
          path = path;
          query = query_of params;
          token = c.probe_token;
        } in
        settled-All (Allowed c now cache p) cache r (answers r) (record {
          own_base = base_url-IsOwnAddress c p base h;
          sidecar = base_url-sidecar c p base h;
          free = f;
          own_token = refl;
        })

    get_from-Allowed :
        (base : Text) (o : Option ℕ)
        → base_url c p ≡ ok base
        → get base cache ≡ o
        → All
            (Allowed c now cache p)
            (get_from c answers now later cache base path params o).requests
    unfolding get_from
    get_from-Allowed base none h e = ask-Allowed base h (rw e (ground arith))
    get_from-Allowed base (some limit) h e = elim (Bool-cases (ltb now limit)) [
      | inl held ↦ rw held tt
      | inr passed ↦ rw passed (ask-Allowed base h (rw (e, passed)))
    ]

    get_based-Allowed :
        (o : Result Unavailable Text)
        → base_url c p ≡ o
        → All (Allowed c now cache p) (get_based c answers now later cache path params o).requests
    unfolding get_based
    get_based-Allowed (err e) h = tt
    get_based-Allowed (ok base) h = get_from-Allowed base (get base cache) h refl

    -- Each request that the client makes for a pod goes to that pod's own IP, carries the
    -- configured token, and is made only if the pod has the sidecar and its address is not held
    -- back as unreachable.
    pub fetch_from_probe-Allowed :
        All
          (Allowed c now cache p)
          (fetch_from_probe c answers now later cache p path params).requests
    unfolding fetch_from_probe
    fetch_from_probe-Allowed = get_based-Allowed (base_url c p) refl

  -- A failed request holds its base back.
  module _ (cache : Cache) (base path message : Text) (params : Map Param)
      (t : (r : ProbeRequest) → answers r ≡ threw message) where
    ask-cache :
        (ask c answers now later cache base path params).cache
        ≡ put base (later + negative_cache_ms) cache
    unfolding ask settled
    ask-cache =
        rw (t (record { base = base; path = path; query = query_of params; token = c.probe_token }))

    get_from-cache :
        (o : Option ℕ)
        → ltb now (or_else o 0) ≡ false
        → (get_from c answers now later cache base path params o).cache
          ≡ put base (later + negative_cache_ms) cache
    unfolding get_from
    get_from-cache none f = ask-cache
    get_from-cache (some limit) f = rw f ask-cache

    get_based-cache :
        (o : Result Unavailable Text)
        → o ≡ ok base
        → IsFree now cache base
        → (get_based c answers now later cache path params o).cache
          ≡ put base (later + negative_cache_ms) cache
    unfolding get_based
    get_based-cache (err e) h f = cc
    get_based-cache (ok b) h f = rw (same_base h) (get_from-cache (get base cache) f)
      where
        same_base : ◌≡◌ {A = Result Unavailable Text} (ok b) (ok base) → b ≡ base
        same_base k = cc

  -- A base that is held back is not asked: the cache stays, and what is returned is the error.
  get_from-Held :
      (cache : Cache) (base path : Text) (params : Map Param) (o : Option ℕ) {limit : ℕ}
      → o ≡ some limit
      → ltb now limit ≡ true
      → Held cache base (get_from c answers now later cache base path params o)
  unfolding get_from
  get_from-Held cache base path params none e h = cc
  get_from-Held cache base path params (some l) {limit = limit} e h =
      rw (same_limit e, h) (record { silent = refl; kept = refl; failed = (_, _, refl) })
    where
      same_limit : ◌≡◌ {A = Option ℕ} (some l) (some limit) → l ≡ limit
      same_limit k = cc

  get_based-Held :
      (cache : Cache) (base path : Text) (params : Map Param) (o : Result Unavailable Text)
      {limit : ℕ}
      → o ≡ ok base
      → get base cache ≡ some limit
      → ltb now limit ≡ true
      → Held cache base (get_based c answers now later cache path params o)
  unfolding get_based
  get_based-Held cache base path params (err e) b g h = cc
  get_based-Held cache base path params (ok d) b g h =
      rw (same_base b) (get_from-Held cache base path params (get base cache) g h)
    where
      same_base : ◌≡◌ {A = Result Unavailable Text} (ok d) (ok base) → d ≡ base
      same_base k = cc

get-put_same : (k : Text) (v : ℕ) (m : Map ℕ) → get k (put k v m) ≡ some v
get-put_same k v m = rw (get-put k k v m) (rw (same_refl k))

-- After a request that brought back an error at the time `later`, the next call, if it is for a
-- pod of that address and within 20 seconds, fails without a request, whatever it asks for, and
-- leaves the cache as it was, so that such a call after it fails too.
pub fetch_from_probe-Held :
    (c : HubConfig) (answers answers' : ProbeRequest → Answer) (now later next after : ℕ)
    (cache : Cache) (p p' : Pod) (path path' : Text) (params params' : Map Param)
    (base message : Text)
    → base_url c p ≡ ok base
    → base_url c p' ≡ ok base
    → IsFree now cache base
    → ((r : ProbeRequest) → answers r ≡ threw message)
    → ltb next (later + 20000) ≡ true
    → let failed = (fetch_from_probe c answers now later cache p path params).cache in
      Held failed base (fetch_from_probe c answers' next after failed p' path' params')
unfolding fetch_from_probe
fetch_from_probe-Held c answers answers' now later next after cache p p' path path' params params'
      base message b b' f t h =
    rw (get_based-cache c answers now later cache base path message params t (base_url c p) b f) (
      get_based-Held c answers' next after (put base (later + negative_cache_ms) cache) base path'
        params' (base_url c p') b' (get-put_same base (later + negative_cache_ms) cache) h)
