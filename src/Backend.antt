-- ===== src/Backend.antt =====
-- backend/backend.h: the two targets, with the tables over them. A name in a table is never missing:
-- each lists both.
pub mod Target
pub mod Flags
pub mod Session
pub mod Compile
use fusilli.Base.{Bool, true, false, Text, codes}

pub data Backend : Type 0 where
  cpu amdgpu : Backend

abbrev pub same_backend : Backend → Backend → Bool
same_backend Backend.cpu Backend.cpu = true
same_backend Backend.amdgpu Backend.amdgpu = true
same_backend _ _ = false

-- `kBackendToStr`
unfoldable pub backend_to_str : Backend → Text
backend_to_str Backend.cpu = codes "CPU"
backend_to_str Backend.amdgpu = codes "AMDGPU"

-- `kBackendExecuteAsync`
abbrev pub backend_execute_async : Backend → Bool
backend_execute_async Backend.cpu = false
backend_execute_async Backend.amdgpu = true

-- `kHalDriver`
unfoldable pub hal_driver : Backend → Text
hal_driver Backend.cpu = codes "local-task"
hal_driver Backend.amdgpu = codes "hip"
