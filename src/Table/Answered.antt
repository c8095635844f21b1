-- ===== src/Table/Answered.antt =====
-- Open and then Get, on any file that Open accepts.
use text.Mathlib.Text.{◌==◌ as str_eq}
use mini_kv_storage_engine.Base.{
  ℕ, ◌+◌, ◌≤◌, ◌<◌, ◌≡◌, sym, ap, ◌∙◌, some, List, [], arith, length, Bool-cases, inl, inr, subst,
  String,
}
use mini_kv_storage_engine.Bytes.{Bytes}
use mini_kv_storage_engine.Status.{Status, ok_status, is_ok}
use mini_kv_storage_engine.Result.{ok, Result-cases}
use mini_kv_storage_engine.Config.{Options, max_u64}
use mini_kv_storage_engine.MemTable.{MemTableRecord}
use mini_kv_storage_engine.File.{RecoveryFile}
use mini_kv_storage_engine.File.Reading.{IsReadable}
use mini_kv_storage_engine.Table.{validate_table_options}
use mini_kv_storage_engine.Table.Read.{SstableReader, get_record}
use mini_kv_storage_engine.Table.Verify.{last_key, open_file, open_table}
use mini_kv_storage_engine.Table.Blocks.{IsRising}
use mini_kv_storage_engine.Table.Groups.{first_key_of}
use mini_kv_storage_engine.Table.Search.{Blocks, block_records, find_record}
use mini_kv_storage_engine.Table.Lookup.{IsReader, HasAnswer, get_record-HasAnswer}
use mini_kv_storage_engine.Table.OpenedFile.{open_file-IsReader}

-- A file that answers as pread(2) and fstat(2) document, and whose opening changes nothing in it.
pub record IsTableFile {S : Type 0} (file : RecoveryFile S)
    (open_read_only : String → S → Status × S) : Type 0 where
  pub readable : IsReadable file
  pub sized :
      (s : S)
      → ((file.size s).0 ≡ (ok_status, length (readable.content s)))
        × (readable.content (file.size s).1 ≡ readable.content s)
        × (readable.patience (file.size s).1 ≤ readable.patience s)
  pub opens :
      (path : String)
      → (s : S)
      → (readable.content (open_read_only path s).1 ≡ readable.content s)
        × (readable.patience (open_read_only path s).1 ≤ readable.patience s)

-- A reader on a file with this content is a map from keys to records: some records in strict
-- order of their keys, of which the metadata have the first and the last key, and Get finds them
-- and no others.
pub record IsMap {S : Type 0} (file : RecoveryFile S) (a : IsReadable file) (retries : ℕ)
    (reader : SstableReader) (content : Bytes) : Type 0 where
  pub records : List MemTableRecord
  pub rising : IsRising [] records
  pub minimum_key : reader.metadata.minimum_key ≡ first_key_of records
  pub maximum_key : reader.metadata.maximum_key ≡ last_key [] records
  pub answers :
      (key : Bytes)
      → 0 < length key
      → length key ≤ reader.options.max_key_size
      → (s : S) → a.content s ≡ content
      → length content + a.patience s < retries
      → HasAnswer a.content s (find_record key records) (get_record file retries reader key s)

module _ {S : Type 0} (file : RecoveryFile S) (open_read_only : String → S → Status × S)
    (h : IsTableFile file open_read_only) (retries : ℕ) where
  described-IsMap :
      (reader : SstableReader) (blocks : Blocks) (content : Bytes)
      → IsReader reader blocks content
      → IsMap file h.readable retries reader content
  described-IsMap reader blocks content v = record {
    records = block_records blocks;
    rising = v.rising;
    minimum_key = v.minimum_key;
    maximum_key = v.maximum_key;
    answers = λ key some_key in_limit s same m.
        get_record-HasAnswer file h.readable retries reader blocks s
          (subst (IsReader reader blocks) (sym same) v) (rw same m) key some_key in_limit;
  }

  -- The file is taken up to the size that its state reports.
  opened_file :
      (path : String) (options : Options) (reader : SstableReader) (s s' : S)
      → open_table file retries open_read_only path options s ≡ some (ok reader, s')
      → open_file file retries options
          (length (h.readable.content s))
          (file.size (open_read_only path s).1).1
        ≡ some (ok reader, s')
  unfolding open_table
  opened_file path options reader s s' e =
      let opened = h.opens path s in
      let sized = h.sized (open_read_only path s).1 in
      elim (Bool-cases (str_eq path "")) [
        | inl none_ ↦ absurd (ground (arith, e, none_))
        | inr some_ ↦ elim (Result-cases (validate_table_options options)) [
          | inr (status, b) ↦ absurd (ground (arith, e, some_, b))
          | inl (checked_, b) ↦ elim (Bool-cases (is_ok (open_read_only path s).0)) [
            | inr fails ↦ absurd (ground (arith, e, some_, b, fails))
            | inl succeeds ↦ ground (arith, e, some_, b, succeeds, sized.0, ap length opened.0)
          ]
        ]
      ]

  -- Whatever the content of a file of at most 2 ^ 64 - 1 bytes, given enough fuel: where Open
  -- returns a reader, the reader is a map.
  pub open_table-IsMap :
      (path : String) (options : Options) (reader : SstableReader) (s s' : S)
      → length (h.readable.content s) ≤ max_u64
      → length (h.readable.content s) + h.readable.patience s < retries
      → open_table file retries open_read_only path options s ≡ some (ok reader, s')
      → IsMap file h.readable retries reader (h.readable.content s)
        × (h.readable.content s' ≡ h.readable.content s)
  open_table-IsMap path options reader s s' fits m e =
      let opened = h.opens path s in
      let sized = h.sized (open_read_only path s).1 in
      let s1 = (file.size (open_read_only path s).1).1 in
      let same : h.readable.content s1 ≡ h.readable.content s = sized.1 ∙ opened.0 in
      let (blocks, described, kept) =
        open_file-IsReader file h.readable retries options reader s1 s' (rw same fits)
          (omega (arith, m, sized, opened, ap length same))
          (rw same (opened_file path options reader s s' e)) in
      (
        subst (IsMap file h.readable retries reader) same
            (described-IsMap reader blocks (h.readable.content s1) described),
        kept ∙ same,
      )
