-- ===== src/Construct.antt =====
-- src/model/checker.cpp: the constructor of ModelChecker, which refuses a zero step bound and names
-- that stand for objects of two kinds, unless one is a condition variable and the other no barrier.
pub mod Objects
pub mod Kinds
use dpor_concurrency_model_c.Common.{ℕ, List, [], ◌∷◌, String, if◌then◌else◌, eqb}
use dpor_concurrency_model_c.Common.Order.{name_ord}
use dpor_concurrency_model_c.Common.OrdSet
use dpor_concurrency_model_c.Common.Result.{Result, ok, throw, ◌>>=◌, invalid_argument, text}
use dpor_concurrency_model_c.Action.{Action, ActionKind, Program}

pub record Names : Type 0 where
  pub mutexes : List String
  pub rwlocks : List String
  pub semaphores : List String
  pub conditions : List String
  pub barriers : List String

abbrev pub no_names : Names
no_names = record { mutexes = []; rwlocks = []; semaphores = []; conditions = []; barriers = [] }

abbrev add_mutex : Action → Names → Names
add_mutex a n = record n { mutexes = OrdSet.insert a.mutex n.mutexes }

abbrev add_condition : Action → Names → Names
add_condition a n = record n { conditions = OrdSet.insert a.condition n.conditions }

abbrev add_rwlock : Action → Names → Names
add_rwlock a n = record n { rwlocks = OrdSet.insert a.rwlock n.rwlocks }

abbrev add_semaphore : Action → Names → Names
add_semaphore a n = record n { semaphores = OrdSet.insert a.semaphore n.semaphores }

abbrev add_barrier : Action → Names → Names
add_barrier a n = record n { barriers = OrdSet.insert a.barrier n.barriers }

unfoldable pub add_names : ActionKind → Action → Names → Names
add_names ActionKind.lock a n = add_mutex a n
add_names ActionKind.try_lock a n = add_mutex a n
add_names ActionKind.unlock a n = add_mutex a n
add_names ActionKind.wait a n = add_condition a (add_mutex a n)
add_names ActionKind.timed_wait a n = add_condition a (add_mutex a n)
add_names ActionKind.signal a n = add_condition a n
add_names ActionKind.broadcast a n = add_condition a n
add_names ActionKind.r_lock a n = add_rwlock a n
add_names ActionKind.r_unlock a n = add_rwlock a n
add_names ActionKind.w_lock a n = add_rwlock a n
add_names ActionKind.w_unlock a n = add_rwlock a n
add_names ActionKind.upgrade a n = add_rwlock a n
add_names ActionKind.downgrade a n = add_rwlock a n
add_names ActionKind.sem_post a n = add_semaphore a n
add_names ActionKind.sem_wait a n = add_semaphore a n
add_names ActionKind.barrier_wait a n = add_barrier a n
add_names _ a n = n

unfoldable pub thread_names : List Action → Names → Names
unfolding add_names OrdSet.insert
thread_names [] n = n
thread_names (a ∷ rest) n = thread_names rest (add_names a.kind a n)

unfoldable pub program_names : List (List Action) → Names → Names
unfolding thread_names
program_names [] n = n
program_names (thread ∷ rest) n = program_names rest (thread_names thread n)

-- The objects that a name of one kind must not name too, in the order of the tests.
abbrev pub Others : Type 0
Others = List (List String × String)

unfoldable pub clash : String → Others → Result (Unit {0})
unfolding OrdSet.contains
clash name [] = ok tt
clash name ((names, reason) ∷ rest) =
    if OrdSet.contains name names
    then throw (invalid_argument (text "name '" ∷ text name ∷ text reason ∷ []))
    else clash name rest

unfoldable pub refuse_clashes : List String → Others → Result (Unit {0})
unfolding clash
refuse_clashes [] others = ok tt
refuse_clashes (name ∷ names) others = clash name others >>= λ _. refuse_clashes names others

unfoldable pub check_names : Names → Result (Unit {0})
unfolding refuse_clashes
check_names n =
    refuse_clashes n.mutexes ((n.rwlocks, "' cannot be used as both a mutex and rwlock") ∷ [])
    >>= λ _.
        refuse_clashes n.semaphores (
          (n.mutexes, "' cannot be used as both a mutex and semaphore")
          ∷ (n.rwlocks, "' cannot be used as both an rwlock and semaphore")
          ∷ [])
        >>= λ _. refuse_clashes n.barriers (
            (n.mutexes, "' cannot be used as both a barrier and mutex")
            ∷ (n.rwlocks, "' cannot be used as both a barrier and rwlock")
            ∷ (n.semaphores, "' cannot be used as both a barrier and semaphore")
            ∷ (n.conditions, "' cannot be used as both a barrier and condition variable")
            ∷ [])

-- The constructor: it returns, or throws std::invalid_argument.
unfoldable pub construct : Program → ℕ → Result (Unit {0})
unfolding program_names check_names
construct program step_bound =
    if eqb step_bound 0
    then throw (invalid_argument (text "step bound must be greater than zero" ∷ []))
    else check_names (program_names program.threads no_names)
