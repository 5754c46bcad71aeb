-- ===== src/Tests/Fingerprints.antt =====
-- Two states of a program, and the theorem on their fingerprints.
use dpor_concurrency_model_c.Common.{◌≡◌, ◌↔◌, arith}
use dpor_concurrency_model_c.Common.Order.{name_ord, nat_ord, pair_ord, bytes_ord, codes}
use dpor_concurrency_model_c.Action.{}
use dpor_concurrency_model_c.State.Threads.{initial_state, normalized}
use dpor_concurrency_model_c.State.Buffers.{}
use dpor_concurrency_model_c.Report.{}
use dpor_concurrency_model_c.Fingerprint.{behavior, behavioral_state_fingerprint}
use dpor_concurrency_model_c.Fingerprint.Exact.{FitsBehavior, fingerprint_exact}
use dpor_concurrency_model_c.Step.{execute_enabled_step}
use dpor_concurrency_model_c.Step.RwLock.{exec_r_lock}
use dpor_concurrency_model_c.Replay.Lasso.{}
use dpor_concurrency_model_c.Replay.Closes.{}
use dpor_concurrency_model_c.Tests.Programs.{locked}
use dpor_concurrency_model_c.Tests.States.{locked_start, locked_read}

locked_start-FitsBehavior : FitsBehavior (behavior locked locked_start)
unfolding behavior initial_state normalized
locked_start-FitsBehavior = record {
  pcs = ground arith;
  started = ground arith;
  owners = ground arith;
  rwlocks = ground arith;
  permits = ground arith;
  barriers = ground arith;
  waiters = ground arith;
  registers = ground arith;
  phases = ground arith;
  cells = ground arith;
  buffers = ground arith;
  pso_buffers = tt;
}

locked_read-FitsBehavior : FitsBehavior (behavior locked locked_read)
unfolding behavior initial_state normalized execute_enabled_step exec_r_lock codes
locked_read-FitsBehavior = record {
  pcs = ground arith;
  started = ground arith;
  owners = ground arith;
  rwlocks = ground arith;
  permits = ground arith;
  barriers = ground arith;
  waiters = ground arith;
  registers = ground arith;
  phases = ground arith;
  cells = ground arith;
  buffers = ground arith;
  pso_buffers = tt;
}

fingerprint_exact_example :
    (behavioral_state_fingerprint locked locked_start
      ≡ behavioral_state_fingerprint locked locked_read)
    ↔ (behavior locked locked_start ≡ behavior locked locked_read)
fingerprint_exact_example =
    fingerprint_exact locked locked_start locked_read locked_start-FitsBehavior
      locked_read-FitsBehavior
