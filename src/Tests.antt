-- ===== src/Tests.antt =====
-- Concrete programs of the model, runs of the interpreter on them, and examples of the theorems.
mod Programs
mod Examples
mod States
mod Fingerprints
mod Searches
mod Explorations
mod Inspections
