-- ===== src/Agent.antt =====
-- The agent, apps-agent/src: a loop that observes, summarises, plans modules and forks, and acts.
pub mod State
pub mod Policies
pub mod Schedule
pub mod Cache
pub mod Sources
pub mod Observer
pub mod Llm
pub mod Summarizer
pub mod Moduleizer
pub mod Forks
pub mod Actions
pub mod Loop
mod Tests
