-- ===== src/Table/Reading.antt =====
-- ReadRegion and ReadBlock on a file that answers as pread(2) does.
use mini_kv_storage_engine.Base.{
  ℕ, take, drop, ◌+◌, ◌≤◌, ◌<◌, ◌≡◌, refl, some, [], arith, length, get_elem?,
}
use mini_kv_storage_engine.Bytes.{Bytes}
use mini_kv_storage_engine.Result.{Result, ok}
use mini_kv_storage_engine.Config.{max_u64}
use mini_kv_storage_engine.File.{RecoveryFile, read_all_at}
use mini_kv_storage_engine.File.Reading.{IsReadable, region, read_all_at_total}
use mini_kv_storage_engine.Table.{IndexEntry, read_region}
use mini_kv_storage_engine.Table.Read.{
  SstableReader, SstableReadStats, read_block, count_block, decode_block,
}

-- The bytes of a region that the file holds.
abbrev pub bytes_at : Bytes → ℕ → ℕ → Bytes
bytes_at content offset size = take size (drop offset content)

module _ {S : Type 0} (file : RecoveryFile S) (a : IsReadable file) (retries : ℕ) where
  read_region-ok :
      (offset size : ℕ) (s s' : S) (r : Result Bytes) {bytes : Bytes}
      → size ≤ max_u64
      → read_all_at file retries offset size [] 0 s ≡ some (r, s')
      → r ≡ ok bytes
      → read_region file retries offset size s ≡ some (ok bytes, s')
  unfolding read_region
  read_region-ok offset size s s' r fits e f = ground (arith, fits, e, f)

  pub read_region_lem :
      (offset size : ℕ) (s : S)
      → offset + size ≤ length (a.content s)
      → length (a.content s) ≤ max_u64
      → length (a.content s) + a.patience s < retries
      → (s' : S) × (read_region file retries offset size s
          ≡ some (ok (bytes_at (a.content s) offset size), s'))
        × (a.content s' ≡ a.content s)
        × (a.patience s' ≤ a.patience s)
  read_region_lem offset size s inside fits m =
      let (s', reads, kept, patient) =
        read_all_at_total file a offset size retries 0 s (omega arith) (omega arith) fits
          (omega arith) in
      let found : region file (a.content s) offset size ≡ ok (bytes_at (a.content s) offset size) =
        ground (arith, inside) in
      (s', read_region-ok offset size s s' _ (omega arith) reads found, kept, patient)

  read_block-decodes :
      (reader : SstableReader) (block : ℕ) (entry : IndexEntry) (bytes : Bytes)
      (stats : SstableReadStats) (s s' : S)
      → get_elem? reader.index block ≡ some entry
      → read_region file retries entry.block_offset entry.block_size s ≡ some (ok bytes, s')
      → read_block file retries reader block stats s
        ≡ some (
          decode_block reader.options entry.block_size bytes,
          (count_block entry.block_size stats, s'),
        )
  unfolding read_block
  read_block-decodes reader block entry bytes stats s s' named reads =
      rw (named, read_block) (rw reads refl)

  -- ReadBlock of an entry inside the file decodes the bytes that the entry names.
  pub read_block_lem :
      (reader : SstableReader) (block : ℕ) (entry : IndexEntry) (stats : SstableReadStats) (s : S)
      → get_elem? reader.index block ≡ some entry
      → entry.block_offset + entry.block_size ≤ length (a.content s)
      → length (a.content s) ≤ max_u64
      → length (a.content s) + a.patience s < retries
      → (s' : S) × (read_block file retries reader block stats s
          ≡ some (
            decode_block reader.options entry.block_size
                (bytes_at (a.content s) entry.block_offset entry.block_size),
            (count_block entry.block_size stats, s'),
          ))
        × (a.content s' ≡ a.content s)
        × (a.patience s' ≤ a.patience s)
  read_block_lem reader block entry stats s named inside fits m =
      let (s', reads, kept, patient) =
        read_region_lem entry.block_offset entry.block_size s inside fits m in
      (s', read_block-decodes reader block entry _ stats s s' named reads, kept, patient)
