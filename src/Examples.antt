-- ===== src/Examples.antt =====
-- Concrete runs: a toy platform, a few rows, and the theorems applied to them.
pub mod Host
pub mod Rows
mod TokenRuns
mod OidcRuns
mod SealingRuns
mod LimitRuns
mod ProgressRuns
mod PolicyRuns
pub mod SessionRuns
mod CsrfRuns
mod FamilyRuns
pub mod AdminRuns
mod LinkRuns
mod LoginRuns
mod ClientRuns
pub mod TextOrder
mod PageRuns
