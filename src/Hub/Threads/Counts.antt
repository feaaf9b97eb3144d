-- ===== src/Hub/Threads/Counts.antt =====
-- What the numbers of the summary of a thread dump say.
use kube_diagnostics_mcp.Common.{
  ℕ, ◌+◌, ◌≤◌, ◌≡◌, refl, ◌∙◌, true, Option, none, some, List, [], ◌∷◌, arith, Text, Map, get,
  length, leb, All, All-sort_by, All-take, All-filter, Each, Each-get, Each-put, sum_of,
  sum_of-add_to, IsDescending, sort_by-IsDescending, take-IsDescending, length-take, descending,
  filter, sort_by, or_else, if◌then◌else◌,
}
use kube_diagnostics_mcp.Hub.Threads.{
  ThreadInfo, Pool, Groups, no_groups, count_pool, count_thread, count_threads, is_busy, pool_name,
}
use kube_diagnostics_mcp.Hub.Threads.Findings.{summarize_thread_dump, summarize_groups}

abbrev count_of : ℕ → ℕ
count_of n = n

-- No pool has more busy threads than threads.
abbrev pub IsPool : Pool → Type 0
IsPool p = p.busy ≤ p.total

count_pool-IsPool :
    (name state : Text) (m : Map Pool) → Each IsPool m → Each IsPool (count_pool name state m)
unfolding count_pool
count_pool-IsPool name state m h = Each-put IsPool name _ m h (pool_grows (get name m) refl)
  where
    pool_grows :
        (o : Option Pool)
        → get name m ≡ o
        → (if is_busy state
            then (or_else o (record { total = 0; busy = 0 })).busy + 1
            else (or_else o (record { total = 0; busy = 0 })).busy)
          ≤ (or_else o (record { total = 0; busy = 0 })).total + 1
    pool_grows none e = ground arith
    pool_grows (some p) e = ground (arith, Each-get IsPool name m h e)

count_threads_sum :
    (ts : List ThreadInfo) (g : Groups)
    → sum_of count_of (count_threads ts g).by_state ≡ sum_of count_of g.by_state + length ts
unfolding count_threads count_thread
count_threads_sum [] g = omega arith
count_threads_sum (t ∷ ts) g =
    omega
      (arith, count_threads_sum ts (count_thread t g), sum_of-add_to 1 t.thread_state g.by_state)

count_threads-IsPool :
    (ts : List ThreadInfo) (g : Groups)
    → Each IsPool g.pools
    → Each IsPool (count_threads ts g).pools
unfolding count_threads count_thread
count_threads-IsPool [] g h = h
count_threads-IsPool (t ∷ ts) g h =
    count_threads-IsPool ts (count_thread t g)
      (count_pool-IsPool (pool_name t.thread_name) t.thread_state g.pools h)

-- The states account for every thread, once each. At most 20 pools are shown, the largest first;
-- each has two threads at least, and no more busy ones than threads.
pub summarize_thread_dump_counts :
    (threads : List ThreadInfo)
    → let s = summarize_thread_dump threads in
      (s.total ≡ length threads)
      × (sum_of (λ n. n) s.by_state ≡ length threads)
      × (length s.pools ≤ 20)
      × IsDescending (λ e. e.1.total) s.pools
      × All (λ e. IsPool e.1 × (leb 2 e.1.total ≡ true)) s.pools
unfolding summarize_thread_dump summarize_groups
summarize_thread_dump_counts threads =
    let pools = (count_threads threads no_groups).pools in
    let big : List (Text × Pool) = filter (λ e. leb 2 e.1.total) pools in
    let size : Text × Pool → ℕ = λ e. e.1.total in
    (
      refl,
      count_threads_sum threads no_groups ∙ omega arith,
      omega (arith, length-take 20 (sort_by (descending size) big)),
      take-IsDescending size 20 _ (sort_by-IsDescending size big),
      All-take _ 20 _ (
          All-sort_by (descending size) _ big
            (All-filter _ _ pools (count_threads-IsPool threads no_groups tt))),
    )
