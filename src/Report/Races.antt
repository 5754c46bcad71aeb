-- ===== src/Report/Races.antt =====
-- src/model/checker.cpp: `record_read`, `record_write` and `record_atomic`: what an access leaves
-- at its address, and the race that it completes.
use dpor_concurrency_model_c.Common.{
  Bool, true, List, [], ◌∷◌, ◌++◌, Option, none, some, String, not, ◌&&◌, ◌||◌, value_or, find, map,
}
use dpor_concurrency_model_c.Common.Order.{name_ord, pair_ord, nat_ord}
use dpor_concurrency_model_c.Common.OrdMap.{OrdMap, lookup, insert, emplace}
use dpor_concurrency_model_c.Clock.{happens_before_or_equal}
use dpor_concurrency_model_c.Action.{Schedule}
use dpor_concurrency_model_c.State.{ExecutionState, AddressState, MemoryAccess, empty_address_state}
use dpor_concurrency_model_c.Report.{RaceReport, first_of_two}

unfoldable pub ordered_by_happens_before : MemoryAccess → MemoryAccess → Bool
unfolding happens_before_or_equal
ordered_by_happens_before l r =
    happens_before_or_equal l.clock r.clock || happens_before_or_equal r.clock l.clock

abbrev pub make_race_report : String → Schedule → MemoryAccess → MemoryAccess → RaceReport
make_race_report address schedule prior current = record {
  address = address;
  first = prior.endpoint;
  second = current.endpoint;
  schedule = schedule;
}

-- The first access of a list that passes the test and is unordered with the current one.
unfoldable pub first_unordered :
    (MemoryAccess → Bool) → List MemoryAccess → MemoryAccess → Option MemoryAccess
unfolding ordered_by_happens_before
first_unordered relevant accesses current =
    find (λ a. relevant a && not (ordered_by_happens_before a current)) accesses

abbrev pub writes_between : MemoryAccess → MemoryAccess → Bool
writes_between current a = a.is_write || current.is_write

-- The last write, if it is unordered with the current access.
unfoldable pub unordered_write : AddressState → MemoryAccess → Option MemoryAccess
unfolding first_unordered
unordered_write a current = elim a.last_write [
  | none ↦ none
  | some w ↦ first_unordered (λ _. true) (w ∷ []) current
]

abbrev pub values_of {ℓ κ} : {K : Type ℓ} {V : Type κ} → OrdMap K V → List V
values_of = map (λ e. e.1)

-- The prior access that a plain read races with, first found.
unfoldable pub read_conflict : AddressState → MemoryAccess → Option MemoryAccess
unfolding unordered_write first_unordered
read_conflict a current =
    first_of_two (unordered_write a current)
      (first_unordered (writes_between current) a.atomic_accesses current)

-- The prior access that a plain write races with, first found.
unfoldable pub write_conflict : AddressState → MemoryAccess → Option MemoryAccess
unfolding unordered_write first_unordered
write_conflict a current = first_of_two (unordered_write a current) (
    first_of_two (first_unordered (λ _. true) (values_of a.reads_since_last_write) current)
      (first_unordered (writes_between current) a.atomic_accesses current))

-- The prior access that an atomic access races with, first found.
unfoldable pub atomic_conflict : AddressState → MemoryAccess → Option MemoryAccess
unfolding first_unordered
atomic_conflict a current = first_unordered (writes_between current) a.plain_accesses current

-- `state.memory[address]`
unfoldable pub address_state : ExecutionState → String → AddressState
unfolding lookup
address_state s address = value_or (lookup address s.memory) empty_address_state

abbrev pub report_race :
    ExecutionState → String → MemoryAccess → Option MemoryAccess → Option RaceReport
report_race s address current none = none
report_race s address current (some prior) =
    some (make_race_report address s.schedule prior current)

unfoldable pub record_read :
    ExecutionState → String → MemoryAccess → ExecutionState × Option RaceReport
unfolding address_state insert
record_read s address current =
    let a : AddressState = address_state s address in
    (
      record s {
        memory =
            insert address
              (record a {
                reads_since_last_write =
                    emplace (current.endpoint.thread, current.endpoint.action_index) current
                      a.reads_since_last_write;
                plain_accesses = a.plain_accesses ++ current ∷ [];
              })
              s.memory;
      },
      report_race s address current (read_conflict a current),
    )

unfoldable pub record_write :
    ExecutionState → String → MemoryAccess → ExecutionState × Option RaceReport
unfolding address_state insert
record_write s address current =
    let a : AddressState = address_state s address in
    (
      record s {
        memory =
            insert address
              (record a {
                last_write = some current;
                reads_since_last_write = [];
                plain_accesses = a.plain_accesses ++ current ∷ [];
              })
              s.memory;
      },
      report_race s address current (write_conflict a current),
    )

unfoldable pub record_atomic :
    ExecutionState → String → MemoryAccess → ExecutionState × Option RaceReport
unfolding address_state insert
record_atomic s address current =
    let a : AddressState = address_state s address in
    (
      record s {
        memory =
            insert address (record a { atomic_accesses = a.atomic_accesses ++ current ∷ [] })
              s.memory;
      },
      report_race s address current (atomic_conflict a current),
    )
