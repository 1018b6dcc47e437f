-- ===== src/Tests.antt =====
-- Runs of the model on small inputs, and the theorems at inputs that meet their hypotheses.
mod Samples
mod DumpRuns
mod DumpPages
mod StreamRuns
mod Combinators
mod ParserRuns
mod GrammarRuns
mod ExtractRuns
mod OpenAlexRuns
mod ExtractorRuns
mod PrintedRuns
mod CallOrder
mod AgainRuns
mod SnapshotStreams
mod Reordering
mod ReorderedDump
