-- ===== src/Graph/Runtime/Execute/Laws.antt =====
-- backend/runtime.h: what a successful execution has checked, and the arguments of its call.
use fusilli.Backend.{Backend}
use fusilli.Graph.Validate.{Graph}
use fusilli.Node.Store.{Store}
