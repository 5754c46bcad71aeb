-- ===== src/Dpor/Enablers/Laws.antt =====
-- src/model/checker.cpp: the enabler heads are enabled steps of the node, and the recursion over
-- the threads that block each other ends.
use dpor_concurrency_model_c.Common.{
  ℕ, zero, suc, ◌+◌, ◌≤◌, ◌<◌, Bool, true, false, none, ◌≡◌, refl, arith, if◌then◌else◌, leb,
  update, if-rule,
}
use dpor_concurrency_model_c.Common.Order.{name_ord}
use dpor_concurrency_model_c.Common.Result.{ok}
use dpor_concurrency_model_c.Action.{Program}
use dpor_concurrency_model_c.State.{thread_count}
use dpor_concurrency_model_c.Dpor.{DporNode}
use dpor_concurrency_model_c.Dpor.Enablers.{enabler_heads_for_thread}
use dpor_concurrency_model_c.Dpor.Enablers.Heads.{AreHeads, heads_of_thread-AreHeads}

-- How many of the threads from `start` on are not being visited.
abbrev pub unvisited : (ℕ → Bool) → ℕ → ℕ → ℕ
unvisited visiting start zero = 0
unvisited visiting start (suc n) =
    let rest = unvisited visiting (suc start) n in if visiting start then rest else suc rest

unvisited-update_past :
    (visiting : ℕ → Bool) (start n tid : ℕ)
    → tid < start
    → unvisited (update visiting tid true) start n ≡ unvisited visiting start n
unvisited-update_past visiting start zero tid h = refl
unvisited-update_past visiting start (suc n) tid h =
    ground (arith, unvisited-update_past visiting (suc start) n tid)

-- A mark uses up one thread.
unvisited-update :
    (visiting : ℕ → Bool) (start n tid : ℕ)
    → visiting tid ≡ false
    → start ≤ tid
    → tid < start + n
    → suc (unvisited (update visiting tid true) start n) ≡ unvisited visiting start n
unvisited-update visiting start zero tid free low high = omega (arith, low, high)
unvisited-update visiting start (suc n) tid free low high = grind (
  arith,
  unvisited-update_past visiting (suc start) n tid,
  unvisited-update visiting (suc start) n tid,
)

-- With fuel for every thread that is not being visited, the recursion ends: its heads are enabled
-- steps of the node.
pub enabler_heads_for_thread-AreHeads :
    (fuel : ℕ) (program : Program) (node : DporNode) (visiting : ℕ → Bool) (tid : ℕ)
    → unvisited visiting 0 (thread_count program) < fuel
    → AreHeads node.enabled (enabler_heads_for_thread fuel program node visiting tid)
unfolding enabler_heads_for_thread
enabler_heads_for_thread-AreHeads zero program node visiting tid h = omega (arith, h)
enabler_heads_for_thread-AreHeads (suc fuel) program node visiting tid h =
    if-rule (AreHeads node.enabled) (leb (thread_count program) tid) {x = ok none} (λ _. tt)
      (λ inside.
        if-rule (AreHeads node.enabled) (visiting tid) {x = ok none} (λ _. tt)
          (λ free. heads_of_thread-AreHeads _ program node tid (λ other.
            enabler_heads_for_thread-AreHeads fuel program node (update visiting tid true) other (
              ground (
                arith,
                h,
                inside,
                free,
                unvisited-update visiting 0 (thread_count program) tid free,
              )))))
