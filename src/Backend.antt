-- ===== src/Backend.antt =====
-- lib-lopez/src/backend/mod.rs: what the program itself does behind the traits of a backend.
pub mod PageRank
pub mod PowerIteration
