-- ===== src/Tests.antt =====
-- Concrete runs of the models, and the theorems at concrete inputs.
mod CapacityRuns
mod FenceRuns
mod TerminalRuns
mod WideRun
mod FrameRuns
mod CacheRuns
mod Codec
mod JournalRuns
mod AgentRuns
mod LogRuns
