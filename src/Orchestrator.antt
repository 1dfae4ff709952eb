-- ===== src/Orchestrator.antt =====
-- apps/backend/src/competitor_scout/agents/orchestrator.py.
pub mod Usage
pub mod Store
pub mod Plans
pub mod Planning
pub mod Children
pub mod ChildLoop
pub mod Attempts
pub mod Waves
pub mod Gathering
pub mod Synthesis
pub mod SourceDomains
pub mod Persisting
pub mod Starting
pub mod Execution
pub mod Invariant
pub mod Budget
pub mod Rounds
pub mod Turns
pub mod Interleavings
pub mod WaveEnds
pub mod PhaseEnds
pub mod SynthesisEnds
pub mod Interrupted
pub mod StartEnds
pub mod Outcome
pub mod RunEnds
pub mod Totals
pub mod PlanLimits
pub mod Coverage
mod Samples
mod Tests
