-- ===== src/Checked.antt =====
-- CheckedAdd, which src/table.cpp, src/manifest.cpp and src/compaction.cpp define alike.
use mini_kv_storage_engine.Base.{ℕ, ◌+◌, ◌-◌, Option, none, some, ltb, if◌then◌else◌}
use mini_kv_storage_engine.Config.{max_u64}

-- `none` for false
abbrev pub checked_add : ℕ → ℕ → Option ℕ
checked_add left right = if ltb (max_u64 - right) left then none else some (left + right)
