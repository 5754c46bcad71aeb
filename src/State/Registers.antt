-- ===== src/State/Registers.antt =====
-- src/model/checker.cpp: thread-local registers and operands. A register id past the last one
-- throws std::logic_error.
use dpor_concurrency_model_c.Common.{ℕ, Bool, Option, none, some, if◌then◌else◌, ltb, update}
use dpor_concurrency_model_c.Common.Result.{Result, ok, throw, logic_error}
use dpor_concurrency_model_c.Action.{ValueOperand, ValueOperandKind, k_register_count}
use dpor_concurrency_model_c.State.{ExecutionState}

unfoldable pub valid_register : ℕ → Bool
valid_register reg = ltb reg k_register_count

unfoldable pub read_register : ExecutionState → ℕ → ℕ → Result ℕ
unfolding valid_register
read_register s tid reg =
    if valid_register reg
    then ok (s.registers tid reg)
    else throw (logic_error "register id out of range")

unfoldable pub write_register : ExecutionState → ℕ → Option ℕ → ℕ → Result ExecutionState
unfolding valid_register
write_register s tid none value = ok s
write_register s tid (some reg) value =
    if valid_register reg
    then ok (record s { registers = update s.registers tid (update (s.registers tid) reg value) })
    else throw (logic_error "register id out of range")

operand_of_kind : ValueOperandKind → ExecutionState → ℕ → ValueOperand → Result ℕ
unfolding read_register
operand_of_kind ValueOperandKind.register s tid operand = read_register s tid operand.reg
operand_of_kind ValueOperandKind.immediate s tid operand = ok operand.immediate

unfoldable pub evaluate_operand : ExecutionState → ℕ → ValueOperand → Result ℕ
unfolding operand_of_kind
evaluate_operand s tid operand = operand_of_kind operand.kind s tid operand

unfoldable pub evaluate_operand_or : ExecutionState → ℕ → Option ValueOperand → ℕ → Result ℕ
unfolding evaluate_operand
evaluate_operand_or s tid none default_value = ok default_value
evaluate_operand_or s tid (some operand) default_value = evaluate_operand s tid operand
