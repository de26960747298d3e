-- ===== src/Builder.antt =====
-- The builder service: how a repository's langgraph.json is checked and a build job is described
-- (services/builder/internal/langgraph/langgraph.go), and the service's state and handlers
-- (services/builder/internal/api/api.go).
pub mod Langgraph
pub mod Resolve
pub mod Validate
pub mod Job
pub mod Reports
pub mod Below
pub mod Within
pub mod Api
pub mod Handlers
pub mod Reads
pub mod Gauges
pub mod Consistent
pub mod Kept
