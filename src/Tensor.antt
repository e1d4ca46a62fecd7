-- ===== src/Tensor.antt =====
-- attributes/tensor_attributes.h and attributes/types.h: the metadata of a tensor.
pub mod Types
pub mod Order
pub mod Stride
pub mod Broadcast
pub mod Attr
pub mod Layout
pub mod Physical
pub mod Validate
