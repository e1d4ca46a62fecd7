-- ===== src/Emit.antt =====
-- support/asm_emitter.h: the text of MLIR for a graph. A text is the list of its characters.
pub mod Format
pub mod Values
pub mod Layout
pub mod Program
pub mod Conv
pub mod Matmul
pub mod Replace
pub mod CustomOp
pub mod Reduction
pub mod Sdpa
pub mod Norm
pub mod Pointwise
pub mod Assembly
