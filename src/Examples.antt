-- ===== src/Examples.antt =====
-- Runs of the library on small graphs and tensors.
mod Shapes
mod Nodes
mod Graphs
mod Operations
mod Elements
mod Commands
mod Orders
mod Targets
mod Loaded
mod Cached
mod Emitted
mod Compiled
