-- ===== src/Construct/Objects.antt =====
-- src/model/checker.cpp: which objects the actions of a program name, by the kinds of action that
-- work on each kind of object.
use dpor_concurrency_model_c.Common.{
  ap, ◌∙◌, Bool, false, List, [], ◌∷◌, String, ◌≡◌, refl, arith, ◌||◌, ◌&&◌, any,
}
use dpor_concurrency_model_c.Common.Order.{name_ord, ◌==◌}
use dpor_concurrency_model_c.Common.OrdSet.{contains, contains-insert}
use dpor_concurrency_model_c.Action.{Action, ActionKind, Program}
use dpor_concurrency_model_c.Dpor.{is_kind}
use dpor_concurrency_model_c.Construct.{Names, no_names, add_names, thread_names, program_names}

pub data Object : Type 0 where
  mutex rwlock semaphore condition barrier : Object

-- The kinds of action that work on an object.
abbrev pub kinds_of : Object → List ActionKind
kinds_of Object.mutex =
    ActionKind.lock ∷ ActionKind.try_lock ∷ ActionKind.unlock ∷ ActionKind.wait
    ∷ ActionKind.timed_wait ∷ []
kinds_of Object.rwlock =
    ActionKind.r_lock ∷ ActionKind.r_unlock ∷ ActionKind.w_lock ∷ ActionKind.w_unlock
    ∷ ActionKind.upgrade ∷ ActionKind.downgrade ∷ []
kinds_of Object.semaphore = ActionKind.sem_post ∷ ActionKind.sem_wait ∷ []
kinds_of Object.condition =
    ActionKind.wait ∷ ActionKind.timed_wait ∷ ActionKind.signal ∷ ActionKind.broadcast ∷ []
kinds_of Object.barrier = ActionKind.barrier_wait ∷ []

abbrev pub object_name : Object → Action → String
object_name Object.mutex a = a.mutex
object_name Object.rwlock a = a.rwlock
object_name Object.semaphore a = a.semaphore
object_name Object.condition a = a.condition
object_name Object.barrier a = a.barrier

-- The action works on the object of that kind and name.
abbrev pub works_on : Object → String → Action → Bool
works_on object name a = any (is_kind a.kind) (kinds_of object) && (object_name object a == name)

-- Some action of the program does.
abbrev pub is_named : Object → String → Program → Bool
is_named object name program = any (any (works_on object name)) program.threads

abbrev pub names_of : Object → Names → List String
names_of Object.mutex n = n.mutexes
names_of Object.rwlock n = n.rwlocks
names_of Object.semaphore n = n.semaphores
names_of Object.condition n = n.conditions
names_of Object.barrier n = n.barriers

or_swap : (x y z : Bool) → (x || (y || z)) ≡ ((y || x) || z)
or_swap x y z = ground arith

or_nothing : (x : Bool) → (x || false) ≡ x
or_nothing x = ground arith

-- What the switch of one action adds.
add_names-names_of :
    (object : Object) (k : ActionKind) (a : Action) (n : Names) (name : String)
    → contains name (names_of object (add_names k a n)) ≡ (
        (any (is_kind k) (kinds_of object) && (object_name object a == name))
        || contains name (names_of object n))
unfolding add_names is_kind
add_names-names_of Object.mutex k a n name = ground (arith, contains-insert a.mutex name n.mutexes)
add_names-names_of Object.rwlock k a n name =
    ground (arith, contains-insert a.rwlock name n.rwlocks)
add_names-names_of Object.semaphore k a n name =
    ground (arith, contains-insert a.semaphore name n.semaphores)
add_names-names_of Object.condition k a n name =
    ground (arith, contains-insert a.condition name n.conditions)
add_names-names_of Object.barrier k a n name =
    ground (arith, contains-insert a.barrier name n.barriers)

thread_names-names_of :
    (object : Object) (thread : List Action) (n : Names) (name : String)
    → contains name (names_of object (thread_names thread n))
      ≡ (any (works_on object name) thread || contains name (names_of object n))
unfolding thread_names
thread_names-names_of object [] n name = refl
thread_names-names_of object (a ∷ rest) n name =
    thread_names-names_of object rest (add_names a.kind a n) name
    ∙ ap (λ b. any (works_on object name) rest || b) (add_names-names_of object a.kind a n name)
    ∙ or_swap (any (works_on object name) rest) (works_on object name a) _

program_names-names_of :
    (object : Object) (threads : List (List Action)) (n : Names) (name : String)
    → contains name (names_of object (program_names threads n))
      ≡ (any (any (works_on object name)) threads || contains name (names_of object n))
unfolding program_names
program_names-names_of object [] n name = refl
program_names-names_of object (thread ∷ rest) n name =
    program_names-names_of object rest (thread_names thread n) name
    ∙ ap (λ b. any (any (works_on object name)) rest || b)
        (thread_names-names_of object thread n name)
    ∙ or_swap (any (any (works_on object name)) rest) (any (works_on object name) thread) _

-- The names that the constructor collects are those that the actions of the program work on.
pub is_named-names_of :
    (object : Object) (program : Program) (name : String)
    → contains name (names_of object (program_names program.threads no_names))
      ≡ is_named object name program
unfolding contains
is_named-names_of object program name =
    program_names-names_of object program.threads no_names name ∙ none_before object
  where
    none_before :
        (o : Object)
        → (any (any (works_on object name)) program.threads || contains name (names_of o no_names))
          ≡ any (any (works_on object name)) program.threads
    none_before Object.mutex = or_nothing _
    none_before Object.rwlock = or_nothing _
    none_before Object.semaphore = or_nothing _
    none_before Object.condition = or_nothing _
    none_before Object.barrier = or_nothing _
