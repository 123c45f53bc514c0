-- ===== src/Examples.antt =====
-- The headline theorems at concrete inputs.
mod RequestTargetExamples
mod MatchExamples
mod MatchPrograms
mod CacheExamples
mod ProgramExamples
mod JsonExamples
mod PolicyExamples
mod NameExamples
