-- ===== src/Graph.antt =====
-- graph/: the graph, its context, its operations and its validation.
pub mod Context
pub mod Op
pub mod Names
pub mod Validate
pub mod Build
pub mod Artifact
pub mod Runtime
pub mod Compile
