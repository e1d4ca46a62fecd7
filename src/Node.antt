-- ===== src/Node.antt =====
-- node/ and attributes/: the operations of a graph.
pub mod Store
pub mod Frame
pub mod Conv
pub mod Matmul
pub mod Pointwise
pub mod Reduction
pub mod Norm
pub mod Sdpa
pub mod CustomOp
