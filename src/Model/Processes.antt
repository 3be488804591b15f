-- ===== src/Model/Processes.antt =====
-- internal/model/model.go: a sampled GPU process, and what /proc says of it.
use gpuardian.Base.{ℕ, String, ℤ, Bool, List}

pub record GpuProcess : Type 0 where
  pub gpu : ℤ
  pub pid : ℤ
  pub name : String
  pub mem_bytes : ℕ  -- uint64
  pub mem_bytes_unknown : Bool

pub record ProcInfo : Type 0 where
  pub pid : ℤ
  pub start_time : ℕ  -- uint64
  pub uid : ℤ
  pub username : String
  pub cmdline : List String
  pub command_path : String
  pub cgroup : String
  pub container_id : String
  pub stderr_path : String
