-- ===== src/Action/Symmetry.antt =====
-- src/model/action.cpp: how the two pair predicates relate.
use dpor_concurrency_model_c.Common.{true, false, not, ◌&&◌, String, some, ◌≡◌, ap, arith}
use dpor_concurrency_model_c.Common.Order.{◌==◌, name_ord}
use dpor_concurrency_model_c.Action.{Action, ActionKind}
use dpor_concurrency_model_c.Action.Pairs.{
  may_conflict, memory_verdict, sync_independent, independent, is_memory_action,
  is_thread_local_action,
}

pub beq_comm : (s t : String) → (s == t) ≡ (t == s)
beq_comm s t = ground (arith, name_ord.beq_iff s t, name_ord.beq_iff t s)

pub may_conflict_comm : (l r : Action) → may_conflict l r ≡ may_conflict r l
unfolding may_conflict
may_conflict_comm l r = ground (arith, beq_comm l.address r.address)

sync_independent_comm : (l r : Action) → sync_independent l r ≡ sync_independent r l
unfolding sync_independent
sync_independent_comm l r = ground (
  arith,
  beq_comm l.condition r.condition,
  beq_comm l.mutex r.mutex,
  beq_comm l.rwlock r.rwlock,
  beq_comm l.semaphore r.semaphore,
  beq_comm l.barrier r.barrier,
)

memory_verdict_comm : (l r : Action) → memory_verdict l r ≡ memory_verdict r l
unfolding memory_verdict
memory_verdict_comm l r = ground (arith, may_conflict_comm l r)

same_location_comm : (s t : String) → (not (s == "") && s == t) ≡ (not (t == "") && t == s)
same_location_comm s t =
    ground (arith, beq_comm s t, name_ord.beq_iff s t, ap (λ (u : String). u == "") {x = s} {y = t})

-- Whether two actions are independent does not depend on their order.
pub independent_comm : (l r : Action) → independent l r ≡ independent r l
unfolding independent
independent_comm l r = ground (
  arith,
  same_location_comm l.address r.address,
  sync_independent_comm l r,
  memory_verdict_comm l r,
)

memory_not_local : (k : ActionKind) → is_memory_action k ≡ true → is_thread_local_action k ≡ false
unfolding is_memory_action is_thread_local_action
memory_not_local k h = ground arith

conflict_verdict :
    (l r : Action)
    → may_conflict l r ≡ true
    → (memory_verdict l r ≡ some false)
      × (is_memory_action l.kind ≡ true)
      × (is_memory_action r.kind ≡ true)
      × ((l.address == "") ≡ false)
      × ((l.address == r.address) ≡ true)
unfolding memory_verdict
conflict_verdict l r h = unfold may_conflict in ground (arith, h)

-- Two actions that may conflict are never independent.
pub conflict_dependent : (l r : Action) → may_conflict l r ≡ true → independent l r ≡ false
unfolding independent
conflict_dependent l r h =
    ground (arith, memory_not_local l.kind, memory_not_local r.kind, conflict_verdict l r h)
