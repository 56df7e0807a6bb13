-- ===== src/Examples.antt =====
-- Runs of the theorems on concrete input, with the parameters given by concrete functions.
pub mod Sorted
pub mod Dictionary
pub mod CodecRuns
pub mod KeyRuns
pub mod CookedRuns
pub mod WireRuns
pub mod CorpusRuns
pub mod QueryRuns
pub mod BoundRuns
pub mod MapRuns
pub mod ShardRuns
pub mod CommitRuns
pub mod IngestRuns
pub mod ReindexRuns
