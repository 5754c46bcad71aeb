-- ===== src/Minimize/Identity.antt =====
-- src/model/checker.cpp: bug identities, their equality, and `reproduces_identities`.
use dpor_concurrency_model_c.Common.{
  ℕ, Bool, true, false, List, [], ◌∷◌, Option, none, some, if◌then◌else◌, ◌||◌, ◌&&◌, not, eqb, ltb,
  String, has_value, option_eq,
}
use dpor_concurrency_model_c.Common.Order.{◌==◌, name_ord, name_lt}
use dpor_concurrency_model_c.Action.{ScheduleStep, step_eq}
use dpor_concurrency_model_c.Report.{
  RaceReport, BlockedThread, BlockedOnKind, DeadlockReport, ModelErrorReport,
  AssertionFailureReport, CheckResult,
}

-- The order of endpoints ignores the flush address.
unfoldable pub schedule_step_less : ScheduleStep → ScheduleStep → Bool
schedule_step_less l r =
    if not (eqb l.thread r.thread) then ltb l.thread r.thread else ltb l.action_index r.action_index

pub record RaceIdentity : Type 0 where
  pub address : String
  pub first : ScheduleStep
  pub second : ScheduleStep

pub record AssertionIdentity : Type 0 where
  pub endpoint : ScheduleStep
  pub reg : ℕ
  pub value : ℕ

pub record BugIdentitySet : Type 0 where
  pub race : Option RaceIdentity
  pub deadlock : Option (List BlockedThread)
  pub error : Option ScheduleStep
  pub assertion : Option AssertionIdentity

kind_code : BlockedOnKind → ℕ
kind_code BlockedOnKind.mutex = 0
kind_code BlockedOnKind.thread = 1
kind_code BlockedOnKind.condition_variable = 2
kind_code BlockedOnKind.rw_lock_writer = 3
kind_code BlockedOnKind.rw_lock_readers = 4
kind_code BlockedOnKind.semaphore = 5
kind_code BlockedOnKind.barrier = 6
kind_code BlockedOnKind.rw_lock_upgrade = 7

-- Optional ids sort with the empty one first: the test on `has_value`, then that on the values.
option_less : Option ℕ → Option ℕ → Bool
option_less none (some b) = true
option_less (some a) (some b) = ltb a b
option_less a none = false

bool_less : Bool → Bool → Bool
bool_less l r = not l && r

-- A lexicographic order: the first field that differs decides.
unfoldable pub blocked_thread_less : BlockedThread → BlockedThread → Bool
unfolding kind_code option_less bool_less name_lt
blocked_thread_less l r =
    if not (eqb l.thread r.thread)
    then ltb l.thread r.thread
    else if not (eqb (kind_code l.kind) (kind_code r.kind))
    then ltb (kind_code l.kind) (kind_code r.kind)
    else if not (l.mutex == r.mutex)
    then name_lt l.mutex r.mutex
    else if not (l.rwlock == r.rwlock)
    then name_lt l.rwlock r.rwlock
    else if not (l.semaphore == r.semaphore)
    then name_lt l.semaphore r.semaphore
    else if not (l.barrier == r.barrier)
    then name_lt l.barrier r.barrier
    else if not (option_eq eqb l.owner r.owner)
    then option_less l.owner r.owner
    else if not (option_eq eqb l.target r.target)
    then option_less l.target r.target
    else if not (l.condition == r.condition)
    then name_lt l.condition r.condition
    else bool_less l.self_wait r.self_wait

bool_eq : Bool → Bool → Bool
bool_eq true b = b
bool_eq false b = not b

-- BlockedThread::operator==
unfoldable pub blocked_eq : BlockedThread → BlockedThread → Bool
unfolding kind_code bool_eq
blocked_eq l r =
    eqb l.thread r.thread
    && l.mutex == r.mutex
    && l.rwlock == r.rwlock
    && l.semaphore == r.semaphore
    && option_eq eqb l.owner r.owner
    && eqb (kind_code l.kind) (kind_code r.kind)
    && option_eq eqb l.target r.target
    && l.condition == r.condition
    && bool_eq l.self_wait r.self_wait
    && l.barrier == r.barrier

insert_blocked : BlockedThread → List BlockedThread → List BlockedThread
unfolding blocked_thread_less
insert_blocked x [] = x ∷ []
insert_blocked x (y ∷ ys) = if blocked_thread_less y x then y ∷ insert_blocked x ys else x ∷ y ∷ ys

-- std::sort by `blocked_thread_less`.
unfoldable pub sort_blocked : List BlockedThread → List BlockedThread
unfolding insert_blocked
sort_blocked [] = []
sort_blocked (x ∷ xs) = insert_blocked x (sort_blocked xs)

unfoldable pub all_blocked_eq : List BlockedThread → List BlockedThread → Bool
unfolding blocked_eq
all_blocked_eq [] [] = true
all_blocked_eq (x ∷ xs) (y ∷ ys) = blocked_eq x y && all_blocked_eq xs ys
all_blocked_eq _ _ = false

-- The endpoints of a race are put in order.
unfoldable pub race_identity : RaceReport → RaceIdentity
unfolding schedule_step_less
race_identity report =
    if schedule_step_less report.second report.first
    then record { address = report.address; first = report.second; second = report.first }
    else record { address = report.address; first = report.first; second = report.second }

unfoldable pub deadlock_identity : DeadlockReport → List BlockedThread
unfolding sort_blocked
deadlock_identity report = sort_blocked report.blocked_threads

abbrev pub error_identity : ModelErrorReport → ScheduleStep
error_identity report = report.endpoint

abbrev pub assertion_identity : AssertionFailureReport → AssertionIdentity
assertion_identity report = record {
  endpoint = report.endpoint;
  reg = report.reg;
  value = report.value;
}

abbrev map_option {ℓ κ} : {A : Type ℓ} {B : Type κ} → (A → B) → Option A → Option B
map_option f none = none
map_option f (some a) = some (f a)

unfoldable pub identities_of : CheckResult → BugIdentitySet
unfolding race_identity deadlock_identity
identities_of result = record {
  race = map_option race_identity result.first_race;
  deadlock = map_option deadlock_identity result.first_deadlock;
  error = map_option error_identity result.first_error;
  assertion = map_option assertion_identity result.first_assertion;
}

-- `empty(identities)`
unfoldable pub no_identity : BugIdentitySet → Bool
no_identity i =
    not (has_value i.race)
    && not (has_value i.deadlock)
    && not (has_value i.error)
    && not (has_value i.assertion)

unfoldable pub race_eq : RaceIdentity → RaceIdentity → Bool
race_eq a b = a.address == b.address && step_eq a.first b.first && step_eq a.second b.second

unfoldable pub assertion_eq : AssertionIdentity → AssertionIdentity → Bool
assertion_eq a b = step_eq a.endpoint b.endpoint && eqb a.reg b.reg && eqb a.value b.value

-- A wanted identity has to be found; where none is wanted, anything may be.
abbrev matches {ℓ} : {A : Type ℓ} → (A → A → Bool) → Option A → Option A → Bool
matches eq found none = true
matches eq none (some wanted) = false
matches eq (some a) (some wanted) = eq a wanted

unfoldable pub reproduces_identities : CheckResult → BugIdentitySet → Bool
unfolding identities_of race_eq all_blocked_eq assertion_eq
reproduces_identities result target =
    let found : BugIdentitySet = identities_of result in
    matches race_eq found.race target.race
    && matches all_blocked_eq found.deadlock target.deadlock
    && matches step_eq found.error target.error
    && matches assertion_eq found.assertion target.assertion

abbrev is_some_and {ℓ} : {A : Type ℓ} → (A → Bool) → Option A → Bool
is_some_and p none = false
is_some_and p (some a) = p a

unfoldable pub is_report_endpoint : ScheduleStep → BugIdentitySet → Bool
is_report_endpoint step target =
    is_some_and (λ r. step_eq step r.first || step_eq step r.second) target.race
    || is_some_and (step_eq step) target.error
    || is_some_and (λ a. step_eq step a.endpoint) target.assertion
