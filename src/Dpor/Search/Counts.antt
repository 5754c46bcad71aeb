-- ===== src/Dpor/Search/Counts.antt =====
-- src/model/checker.cpp: how many schedules the DPOR search counts and collects.
use dpor_concurrency_model_c.Common.{
  ℕ, suc, ◌≤◌, false, List, [], ◌∷◌, Option, none, some, ◌≡◌, arith, leb, length, length-append,
}
use dpor_concurrency_model_c.Action.{Program, Schedule}
use dpor_concurrency_model_c.Report.{
  CheckResult, StepReport, DeadlockReport, NonTerminationReport, record_step_report,
}
use dpor_concurrency_model_c.Replay.{record_bound_exceeded, explored_one}
use dpor_concurrency_model_c.Replay.Lasso.{record_nontermination, count_fairness}
use dpor_concurrency_model_c.Dpor.Search.{pushed}
use dpor_concurrency_model_c.Dpor.Search.Kept.{Kept}

-- As many schedules are collected as counted, and no more are counted than the cap allows.
abbrev pub Counted : ℕ → CheckResult → Option (List Schedule) → Type 0
Counted max_schedules r none = ⊥
Counted max_schedules r (some schedules) =
    (length schedules ≡ r.schedules_explored) × (r.schedules_explored ≤ max_schedules)

pub record_nontermination-explored :
    (r : CheckResult) (lasso : NonTerminationReport)
    → (record_nontermination r lasso).schedules_explored ≡ suc r.schedules_explored
unfolding record_nontermination count_fairness
record_nontermination-explored r lasso = ground arith

-- One schedule more, in the count and in the collection.
one_more :
    (max_schedules : ℕ) (r q : CheckResult) (ts : Option (List Schedule)) (schedule : Schedule)
    → q.schedules_explored ≡ suc r.schedules_explored
    → leb max_schedules r.schedules_explored ≡ false
    → Counted max_schedules r ts
    → Counted max_schedules q (pushed schedule ts)
one_more max_schedules r q none schedule more room held = held
one_more max_schedules r q (some schedules) schedule more room (same, held) = (
  omega (arith, length-append schedules (schedule ∷ []), more, same),
  ground (arith, more, room, held),
)

recorded_Counted :
    (max_schedules : ℕ) (r : CheckResult) (report : StepReport) (ts : Option (List Schedule))
    → Counted max_schedules r ts
    → Counted max_schedules (record_step_report r report) ts
unfolding record_step_report
recorded_Counted max_schedules r report none held = held
recorded_Counted max_schedules r report (some schedules) held = held

deadlocked_Counted :
    (max_schedules : ℕ) (r : CheckResult) (report : DeadlockReport) (ts : Option (List Schedule))
    → Counted max_schedules r ts
    → Counted max_schedules (record r { first_deadlock = some report }) ts
deadlocked_Counted max_schedules r report none held = held
deadlocked_Counted max_schedules r report (some schedules) held = held

pub Counted-Kept :
    (program : Program) (max_schedules : ℕ)
    → Kept program max_schedules (λ _. Unit) (Counted max_schedules)
unfolding record_bound_exceeded
Counted-Kept program max_schedules = record {
  stepped = λ step at enabled ran. tt;
  recorded =
      λ {r = r} {ts = ts} step at enabled ran held. recorded_Counted max_schedules r _ ts held;
  explored = λ {r = r} {ts = ts} schedule room held.
      one_more max_schedules r (explored_one r) ts schedule (omega arith) room held;
  bounded = λ {r = r} {ts = ts} schedule room held.
      one_more max_schedules r (record_bound_exceeded r) ts schedule (omega arith) room held;
  looped = λ {t = t} {r = r} {ts = ts} start lasso at made room held.
      one_more max_schedules r (record_nontermination r lasso) ts t.schedule
        (record_nontermination-explored r lasso) room held;
  deadlocked = λ {r = r} {ts = ts} report at stuck unfinished made held.
      deadlocked_Counted max_schedules r report ts held;
}

-- No more schedules are counted than the cap allows.
abbrev pub WithinCap : ℕ → CheckResult → Option (List Schedule) → Type 0
WithinCap max_schedules r ts = r.schedules_explored ≤ max_schedules

pub WithinCap-Kept :
    (program : Program) (max_schedules : ℕ)
    → Kept program max_schedules (λ _. Unit) (WithinCap max_schedules)
unfolding record_bound_exceeded record_step_report
WithinCap-Kept program max_schedules = record {
  stepped = λ step at enabled ran. tt;
  recorded = λ step at enabled ran held. held;
  explored = λ schedule room held. ground (arith, room);
  bounded = λ schedule room held. ground (arith, room);
  looped = λ {r = r} start lasso at made room held.
      ground (arith, room, record_nontermination-explored r lasso);
  deadlocked = λ report at stuck unfinished made held. held;
}
