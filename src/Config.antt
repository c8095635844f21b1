-- ===== src/Config.antt =====
-- include/minikv/options.hpp, and the enumerations of memtable.hpp and wal.hpp.
use mini_kv_storage_engine.Base.{
  ℕ, Bool, true, false, ◌/◌, ◌%◌, ◌^◌, ◌-◌, ◌&&◌, ◌||◌, leb, ltb, ◌==◌,
}

-- std::numeric_limits<...>::max() of the unsigned types.
abbrev pub max_u32 : ℕ
max_u32 = 2 ^ 32 - 1

abbrev pub max_u64 : ℕ
max_u64 = 2 ^ 64 - 1

-- A double is its IEEE 754 bit pattern.
pub record Options : Type 0 where
  pub max_key_size : ℕ
  pub max_value_size : ℕ
  pub memtable_size_limit : ℕ
  pub sstable_block_size : ℕ
  pub bloom_filter_enabled : Bool
  pub compaction_output_size_limit : ℕ
  pub maximum_scan_entries : ℕ
  pub background_maintenance : Bool
  pub level0_compaction_trigger : ℕ
  pub bloom_false_positive_rate : ℕ

abbrev pub default_options : Options
default_options = record {
  max_key_size = 65536;
  max_value_size = 4194304;
  memtable_size_limit = 4194304;
  sstable_block_size = 4096;
  bloom_filter_enabled = true;
  compaction_output_size_limit = 2097152;
  maximum_scan_entries = 1000;
  background_maintenance = false;
  level0_compaction_trigger = 4;
  bloom_false_positive_rate = 0x3F847AE147AE147B;
}

-- `ValueType` is a byte: `unknown` stands for a value that no enumerator has.
pub data ValueType : Type 0 where
  value deletion : ValueType
  unknown : ℕ → ValueType

-- `SyncMode`, likewise.
pub data SyncMode : Type 0 where
  sync async : SyncMode
  invalid : ℕ → SyncMode

-- `!std::isfinite(rate) || rate <= 0.0 || rate >= 1.0` on a bit pattern: the exponent is all ones;
-- the sign is set or all is 0; the pattern is that of 1.0 or one above it with the sign clear.
unfoldable pub rate_is_invalid : ℕ → Bool
rate_is_invalid rate =
    (rate / 2 ^ 52 % 2 ^ 11 == 2047)
    || (leb (2 ^ 63) rate || (rate == 0))
    || (leb 0x3FF0000000000000 rate && ltb rate (2 ^ 63))
