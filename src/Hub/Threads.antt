-- ===== src/Hub/Threads.antt =====
-- src/hub/tools/java.ts: `summarizeThreadDump`, the summary of a thread dump of Actuator. The map
-- `ownerOf`, which the source fills and never reads, is left out.
pub mod Deadlocks
pub mod Findings
pub mod Cycles
pub mod Walk
pub mod Found
pub mod Counts
mod Tests
use kube_diagnostics_mcp.Common.{
  add_to, ℕ, ◌+◌, ◌≤◌, Bool, true, false, not, ◌&&◌, ◌||◌, Option, none, some, List, [], ◌∷◌, ◌++◌,
  map, Text, txt, Map, get, put, same, includes, is_empty, or_else, if◌then◌else◌, length, leb,
  filter, find, take, sort_by, descending,
}
use kube_diagnostics_mcp.Regex.{
  Regex, char, seq, alt, start, finish, opt, lit, any_of, seqs, many, many1, Captures, replace_once,
  test,
}
use kube_diagnostics_mcp.Regex.Classes.{is_digit, one_of}

pub record Frame : Type 0 where
  pub class_name : Text
  pub method_name : Text

pub record ThreadInfo : Type 0 where
  pub thread_name : Text
  pub thread_state : Text
  pub lock_name : Option Text
  pub lock_owner_name : Option Text
  pub stack_trace : Option (List Frame)

pub record Pool : Type 0 where
  pub total : ℕ
  pub busy : ℕ

pub record Blocked : Type 0 where
  pub count : ℕ
  pub owner : Option Text

pub record Signature : Type 0 where
  pub count : ℕ
  pub states : List Text
  pub example : Text

-- The maps that the loop over the threads fills.
pub record Groups : Type 0 where
  pub by_state : Map ℕ
  pub pools : Map Pool
  pub blocked_on : Map Blocked
  pub signatures : Map Signature

-- A missing or empty string is falsy.
abbrev pub truthy : Option Text → Option Text
truthy none = none
truthy (some []) = none
truthy (some (c ∷ s)) = some (c ∷ s)

-- `/^(java\.|javax\.|…)/`
abbrev pub library_frame : Regex
unfolding txt one_of
library_frame = seq start (
    any_of (lit (txt "java.")) (
      lit (txt "javax.")
      ∷ lit (txt "jakarta.")
      ∷ lit (txt "sun.")
      ∷ lit (txt "jdk.")
      ∷ lit (txt "org.springframework.")
      ∷ seqs (
          lit (txt "org.apache.")
          ∷ any_of (lit (txt "tomcat")) (lit (txt "coyote") ∷ lit (txt "catalina") ∷ [])
          ∷ [])
      ∷ lit (txt "com.zaxxer.")
      ∷ lit (txt "io.netty.")
      ∷ lit (txt "reactor.")
      ∷ lit (txt "org.hibernate.")
      ∷ lit (txt "kotlin.")
      ∷ []))

unfoldable pub is_app_frame : Text → Bool
unfolding test
is_app_frame c = not (test library_frame c)

-- `/[-_ ]?\d+$/`
abbrev pub number_suffix : Regex
unfolding txt
number_suffix = seqs (opt (char (one_of (txt "-_ "))) ∷ many1 is_digit ∷ finish ∷ [])

-- `/\[.*$/`; `.` stops at a line terminator
abbrev pub from_bracket : Regex
unfolding txt
from_bracket =
    seqs (lit (txt "[") ∷ many (λ c. not (one_of (10 ∷ 13 ∷ 8232 ∷ 8233 ∷ []) c)) ∷ finish ∷ [])

abbrev no_text : Text → Captures → Text
no_text m cs = []

unfoldable pub pool_name : Text → Text
unfolding replace_once
pool_name name = replace_once from_bracket no_text (replace_once number_suffix no_text name)

abbrev pub is_busy : Text → Bool
is_busy state = same state (txt "RUNNABLE") || same state (txt "BLOCKED")

unfoldable pub count_pool : Text → Text → Map Pool → Map Pool
count_pool name state m =
    let pool = or_else (get name m) (record { total = 0; busy = 0 }) in
    put name
      (record { total = pool.total + 1; busy = if is_busy state then pool.busy + 1 else pool.busy })
      m

abbrev pub is_blocked : ThreadInfo → Bool
is_blocked t = same t.thread_state (txt "BLOCKED")

note_lock : Text → Option Text → Map Blocked → Map Blocked
note_lock lock owner m =
    let b = or_else (get lock m) (record { count = 0; owner = owner }) in
    put lock (record b { count = b.count + 1 }) m

unfoldable pub count_blocked : ThreadInfo → Map Blocked → Map Blocked
unfolding note_lock
count_blocked t m = elim (truthy t.lock_name) [
  | none ↦ m
  | some lock ↦ if is_blocked t then note_lock lock t.lock_owner_name m else m
]

abbrev head? : List Frame → Option Frame
head? [] = none
head? (f ∷ fs) = some f

-- `frames.find((f) => isAppFrame(f.className)) ?? frames[0]`
unfoldable pub top_frame : List Frame → Option Frame
unfolding find is_app_frame
top_frame frames = elim (find (λ f. is_app_frame f.class_name) frames) [
  | some f ↦ some f
  | none ↦ head? frames
]

abbrev pub is_waiting : Text → Bool
is_waiting state = same state (txt "WAITING") || same state (txt "TIMED_WAITING")

-- `states.add(state)`
abbrev pub add_state : Text → List Text → List Text
add_state state l = if includes state l then l else l ++ state ∷ []

note_signature : Text → ThreadInfo → Map Signature → Map Signature
unfolding includes
note_signature sig t m =
    let s = or_else (get sig m) (record { count = 0; states = []; example = t.thread_name }) in
    put sig (record s { count = s.count + 1; states = add_state t.thread_state s.states }) m

unfoldable pub count_signature : ThreadInfo → Map Signature → Map Signature
unfolding note_signature top_frame
count_signature t m = elim (top_frame (or_else t.stack_trace [])) [
  | none ↦ m
  | some top ↦
      if is_waiting t.thread_state
      then m
      else note_signature (top.class_name ++ (b'.' ∷ top.method_name)) t m
]

unfoldable pub count_thread : ThreadInfo → Groups → Groups
unfolding add_to count_pool pool_name count_blocked count_signature
count_thread t g = record {
  by_state = add_to 1 t.thread_state g.by_state;
  pools = count_pool (pool_name t.thread_name) t.thread_state g.pools;
  blocked_on = count_blocked t g.blocked_on;
  signatures = count_signature t g.signatures;
}

unfoldable pub count_threads : List ThreadInfo → Groups → Groups
unfolding count_thread
count_threads [] g = g
count_threads (t ∷ ts) g = count_threads ts (count_thread t g)

abbrev pub no_groups : Groups
no_groups = record { by_state = []; pools = []; blocked_on = []; signatures = [] }
