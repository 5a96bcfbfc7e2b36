-- ===== src/Tests.antt =====
-- Runs of the model, and the theorems at concrete inputs.
pub mod Worlds
pub mod CacheRuns
pub mod DieRuns
pub mod TypeRuns
pub mod CompareRuns
pub mod TypedefRuns
pub mod PassRuns
pub mod ModifierRuns
pub mod IteratorRuns
pub mod FuncRuns
pub mod MacroRuns
pub mod PluginRuns
