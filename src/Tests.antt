-- ===== src/Tests.antt =====
-- Runs of the definitions, and the theorems at concrete inputs.
mod DeltaRuns
mod MergeinfoRuns
mod RasvnRuns
mod TextRuns
mod WcRuns
mod SkelRuns
mod Lz4Runs
mod DiffRuns
mod HashfileRuns
mod StreamRuns
