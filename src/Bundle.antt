-- ===== src/Bundle.antt =====
-- app/proxy_apply_state.py: the journal of an apply transaction over several files. `Disk` is what
-- the code reads and writes, `Journal` loads and checks a journal, `Apply` has `prepare`, `commit`
-- and `recover`; the proofs are in `Writes`, `Validity`, `Atomicity` and `Refusal`.
pub mod Disk
pub mod Journal
pub mod Apply
pub mod Writes
pub mod Validity
pub mod Atomicity
pub mod Preparation
pub mod History
pub mod Refusal
pub mod Modes
mod Tests
