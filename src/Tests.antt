-- ===== src/Tests.antt =====
-- Runs of the model at concrete inputs: the parameters of the model instantiated, and an instance of
-- each property with hypotheses.
pub mod Sample
pub mod SampleJournal
pub mod Drift
pub mod Pull
pub mod Remote
pub mod Frames
pub mod Lists
pub mod Push
pub mod Plan
pub mod Diff
pub mod Json
pub mod Installed
pub mod Interrupted
pub mod PullCommand
