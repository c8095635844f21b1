-- ===== src/Table/OpenedFile.antt =====
-- Open, from the header to the reader that it returns.
use mini_kv_storage_engine.Base.{
  ℕ, ◌+◌, ◌-◌, ◌≤◌, ◌<◌, ◌≡◌, ap, ◌∙◌, some, arith, length, Bool-cases, inl, inr, subst, ltb,
}
use mini_kv_storage_engine.Bytes.{Bytes}
use mini_kv_storage_engine.Result.{ok, Result-cases}
use mini_kv_storage_engine.Config.{Options, max_u64}
use mini_kv_storage_engine.Io.{lift, ◌>>=◌}
use mini_kv_storage_engine.File.{RecoveryFile}
use mini_kv_storage_engine.File.Reading.{IsReadable}
use mini_kv_storage_engine.Table.{index_header_size, table_header_size, footer_size}
use mini_kv_storage_engine.Table.Build.{Footer}
use mini_kv_storage_engine.Table.Read.{SstableReader}
use mini_kv_storage_engine.Table.Open.{
  TableHeader, decode_table_header, decode_footer, footer_fields,
}
use mini_kv_storage_engine.Table.Verify.{open_regions, open_file}
use mini_kv_storage_engine.Table.Reading.{bytes_at, read_region_lem}
use mini_kv_storage_engine.Table.Search.{Blocks}
use mini_kv_storage_engine.Table.Lookup.{IsReader}
use mini_kv_storage_engine.Table.Opened.{open_regions-IsReader}

decode_footer-size :
    (header : TableHeader) (size : ℕ) (bytes : Bytes) (f : Footer)
    → decode_footer header size bytes ≡ ok f
    → f.file_size ≡ size
unfolding decode_footer
decode_footer-size header size bytes f e = elim (Result-cases (footer_fields bytes)) [
  | inr (status, b) ↦ absurd (ground (arith, e, b))
  | inl ((f', (n, checksum)), b) ↦ ground (arith, e, b)
]

module _ {S : Type 0} (file : RecoveryFile S) (a : IsReadable file) (retries : ℕ) where
  open_footer-IsReader :
      (options : Options) (header : TableHeader) (encoded_footer : Bytes) (reader : SstableReader)
      (s s' : S)
      → length (a.content s) ≤ max_u64
      → length (a.content s) + a.patience s < retries
      → (lift (decode_footer header (length (a.content s)) encoded_footer)
            >>= open_regions file retries options)
          s
        ≡ some (ok reader, s')
      → (blocks : Blocks) × IsReader reader blocks (a.content s) × (a.content s' ≡ a.content s)
  open_footer-IsReader options header encoded_footer reader s s' fits m e =
      elim (Result-cases (decode_footer header (length (a.content s)) encoded_footer)) [
        | inr (status, b) ↦ absurd (ground (arith, e, b))
        | inl (f, b) ↦
            open_regions-IsReader file a retries options f reader s s'
              (decode_footer-size header (length (a.content s)) encoded_footer f b) fits m
              (ground (arith, e, b))
      ]

  pub open_file-IsReader :
      (options : Options) (reader : SstableReader) (s s' : S)
      → length (a.content s) ≤ max_u64
      → length (a.content s) + a.patience s < retries
      → open_file file retries options (length (a.content s)) s ≡ some (ok reader, s')
      → (blocks : Blocks) × IsReader reader blocks (a.content s) × (a.content s' ≡ a.content s)
  unfolding open_file
  open_file-IsReader options reader s s' fits m e =
      elim (Bool-cases
        (ltb (length (a.content s)) (table_header_size + index_header_size + footer_size))) [
          | inl small ↦ absurd (ground (arith, e, small))
          | inr large ↦
              let (s1, reads, kept, patient) =
                read_region_lem file a retries 0 table_header_size s (ground (arith, large)) fits
                  m in
              let (s2, reads', kept', patient') =
                read_region_lem file a retries (length (a.content s) - footer_size) footer_size s1
                  (rw kept (ground (arith, large))) (rw kept fits)
                  (omega (arith, m, patient, ap length kept)) in
              elim (Result-cases
                (decode_table_header (bytes_at (a.content s) 0 table_header_size))) [
                  | inr (status, b) ↦ absurd (ground (arith, e, large, reads, b))
                  | inl (header, b) ↦
                      let (blocks, described, kept'') =
                        open_footer-IsReader options header
                          (bytes_at (a.content s1) (length (a.content s) - footer_size) footer_size)
                          reader s2 s' (rw (kept', kept) fits)
                          (omega (arith, m, patient, patient', ap length kept, ap length kept'))
                          (rw (kept', kept) (ground (arith, e, large, reads, b, reads'))) in
                      (
                        blocks,
                        subst (IsReader reader blocks) (kept' ∙ kept) described,
                        kept'' ∙ kept' ∙ kept,
                      )
                ]
        ]
