-- ===== src/Lib.antt =====
-- A verification library for kube-diagnostics-mcp: a hub that answers diagnostic tool calls about a
-- Kubernetes cluster over MCP, and a probe, a sidecar that the hub asks about one pod.
--
-- The parts, and how they interact. Both programs start from `loadConfig` (src/config.ts). The hub
-- takes requests over HTTP (src/hub/transport/http.ts), whose sessions are those of the MCP SDK; its
-- tools read the cluster through one read-only client (src/k8s/client.ts), which checks every argument
-- with the guard (src/security/guard.ts); they resolve workloads (src/hub/model.ts), ask the probes
-- (src/probe/client.ts) and scan logs (src/security/sensitive.ts), and whatever they return passes the
-- runner (src/hub/server.ts) and its sanitizer (src/security/sanitize.ts). The probe
-- (src/probe/server.ts) answers the hub's requests, for which it reads the connection tables
-- (src/probe/procnet.ts) and the access log (src/probe/accesslog.ts), and takes beacons of browsers
-- (rum-client/src/index.ts), which an aggregator (src/probe/rum.ts) keeps.
--
-- What models which part:
--   Guard        src/security/guard.ts; Names, Limits and Safe prove what the checks accept
--   Sanitize     src/security/sanitize.ts; Rules holds the redaction rules, Deep what sanitizeDeep does
--   Rum          src/probe/rum.ts; Routes, Samples, State and Ingest are the code, Bounds (Filing,
--                Beacons, Events, Loop), Order and Privacy prove about it
--                Report and Prometheus are its summaries, Prometheus.Labels proves about them
--   RumClient    rum-client/src/index.ts, the browser's side; Steps holds the callbacks, Queue and Buffer
--                prove
--   Hub.Env      describeEnv of src/hub/tools/config.ts; Masked proves
--   Hub.Network  getNetworkPolicies, isPrivate and getOpenConnections of src/hub/tools/network.ts;
--                Policies, Private and Open are the code, Covered, Ranges and Asked prove
--   Stats        percentile of src/hub/model.ts
--   Config       src/config.ts; Parse, Providers, Load and Summary are the code, Auth and Secrets
--                prove about it
--   Probe        src/probe/server.ts; Actuator, Answers and Server are the code, Access and Bodies prove
--   Probe.Net    src/probe/procnet.ts; Connections is the summary, Hex and Counts prove
--   Probe.AccessLog  src/probe/accesslog.ts; Paths, Rounds, Summary and Files are the code, Counts and
--                Thrown prove
--   Hub.Threads  summarizeThreadDump of src/hub/tools/java.ts; Deadlocks and Findings are the code,
--                Walk, Cycles, Found and Counts prove
--   Hub.Model    src/hub/model.ts; Workload, Summary and Pods are the code, Labels, Resolve and Problems
--                prove
--   Hub.Server   src/hub/context.ts and the runner of src/hub/server.ts; Runner proves
--   Hub.Probes   src/probe/client.ts; Cache proves about the negative cache
--   Sensitive    src/security/sensitive.ts; Masks, Detectors and Scan are the code, Luhn and Findings
--                prove
--   Hub.Http     src/hub/transport/http.ts; Sessions proves about the session table
--   Kube         src/k8s/client.ts; Client and Methods are the code, Scope and Operations prove
--   Regex        the regular expressions of JavaScript that the source uses, as a backtracking
--                engine, with a relational description that it is sound and complete for
--   Strings, Json, Common   the string methods, JSON values, and what all of them share
--
-- How the code corresponds. A function of the source is a function by clauses under the same name in
-- snake case; a class is a record of its fields, and a method takes the record and returns the new
-- one; `throw` is `err` of a result whose error type has a constructor for each message, with the
-- values that the message interpolates. Maps are association lists in insertion order. Texts are
-- lists of character codes, which a body's size counts as bytes. Numbers are counted in millionths,
-- with the infinities and NaN; times are milliseconds. What a handler does to the outside (a request
-- to the API, a file, a socket) is a value in the list of effects that a run returns, and what comes
-- back is an argument, as are the conversions Number(...) and String(...), the JSON and URL parsers
-- of the runtime, and the transports of the MCP SDK. Where the source catches what a conversion throws
-- (a beacon, a line of an access log), the argument is an option, none where it throws.
--
-- Bounds and fuel. The regular expression engine and all loops but three recur on the structure of the
-- pattern, the text or the list. The `g` loop of a replacement runs on fuel, one round more than the
-- text is long, which is enough since each round but the last moves on by a character; printing n runs
-- on n + 1 rounds, one for each digit; the walk
-- along waiting threads runs on as many rounds as its chain may have names. The limits of the aggregator, of bodies and of windows are
-- those of the source.
--
-- What is not modelled: the other tools and the runbooks over the client, the providers of third-party
-- services, the list of processes, logging and the process start, and Kubernetes quantities.
-- Where a listing asks several namespaces at once, the requests are in order and the first error in
-- that order is the result; the source returns the error that comes first in time.
pub mod Common
pub mod Regex
pub mod Strings
pub mod Guard
pub mod Json
pub mod Sanitize
pub mod Stats
pub mod Rum
pub mod Config
pub mod Probe
pub mod Hub
pub mod Kube
pub mod Sensitive
pub mod RumClient
