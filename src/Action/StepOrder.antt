-- ===== src/Action/StepOrder.antt =====
-- include/model/action.hpp: `operator<` on schedule steps as the key order of std::map.
use dpor_concurrency_model_c.Common.{true, false, ◌≡◌, ◌↔◌, arith}
use dpor_concurrency_model_c.Common.Order.{Ord}
use dpor_concurrency_model_c.Action.{ScheduleStep, step_eq, step_lt}

pub step_eq_iff : (s t : ScheduleStep) → (step_eq s t ≡ true) ↔ (s ≡ t)
step_eq_iff s t = ground arith

pub step_lt_irrefl : (s : ScheduleStep) → step_lt s s ≡ false
step_lt_irrefl s = ground arith

pub step_lt_trans :
    (s t u : ScheduleStep) → step_lt s t ≡ true → step_lt t u ≡ true → step_lt s u ≡ true
step_lt_trans s t u h k = ground arith

pub step_lt_total :
    (s t : ScheduleStep) → step_lt s t ≡ false → step_eq s t ≡ false → step_lt t s ≡ true
step_lt_total s t h k = ground arith

instance abbrev pub step_ord : Ord ScheduleStep
step_ord = record {
  beq = step_eq;
  lt = step_lt;
  beq_iff = step_eq_iff;
  lt_irrefl = step_lt_irrefl;
  lt_trans = step_lt_trans;
}
