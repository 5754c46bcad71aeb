-- ===== src/Minimize.antt =====
-- src/model/checker.cpp: schedule minimization.
pub mod Identity
pub mod Defs
pub mod Laws
pub mod Termination
pub mod Reports
pub mod Preserved
