-- ===== src/Graph/Context.antt =====
-- graph/context.h: what fills in the element types that are not set.
use fusilli.Base.{String}
use fusilli.Tensor.Types.{DataType}

pub record Context : Type 0 where
  pub compute_data_type : DataType
  pub intermediate_data_type : DataType
  pub io_data_type : DataType
  pub name : String
