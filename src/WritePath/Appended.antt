-- ===== src/WritePath/Appended.antt =====
-- What WalWriter.Append leaves in a log file that answers as write(2) and fdatasync(2) document.
use mini_kv_storage_engine.Base.{
  ℕ, ◌+◌, ◌≤◌, ◌<◌, ◌^◌, ◌≡◌, refl, sym, ◌∙◌, ap, true, false, some, ◌++◌, append-nil, arith,
  length, take, take_all, Bool-cases, inl, inr,
}
use mini_kv_storage_engine.Bytes.{Bytes}
use mini_kv_storage_engine.Status.{Status, ok_status, is_ok}
use mini_kv_storage_engine.Result.{Result-cases, ok, err}
use mini_kv_storage_engine.Config.{Options, SyncMode}
use mini_kv_storage_engine.File.{WritableFile, write_all}
use mini_kv_storage_engine.File.Writing.{IsAppending, write_all_total}
use mini_kv_storage_engine.Wal.{WalRecord, encode_wal_record}
use mini_kv_storage_engine.Wal.Encoded.{IsAccepted, encoding, encode-IsAccepted, encode_lem}
use mini_kv_storage_engine.Wal.RoundTrip.{length-encoding}
use mini_kv_storage_engine.Wal.Writer.{WalWriter, append, is_invalid, is_sync, remember_failure}

-- An appended file whose fdatasync(2), successful or not, keeps its content.
pub record IsLogFile {S : Type 0} (file : WritableFile S) : Type 0 where
  pub appending : IsAppending file
  pub syncs : (s : S) → appending.content (file.sync s).1 ≡ appending.content s

-- The outcomes: the whole record, or a status that is not OK and a part of the record.
pub data Appended (o : Options) (r : WalRecord) (w : WalWriter) (c : Bytes) (status : Status)
    (w' : WalWriter) (c' : Bytes) : Type 0 where
  appended :
      is_ok status ≡ true
      → w' ≡ w
      → IsAccepted o r
      → c' ≡ c ++ encoding r
      → Appended o r w c status w' c'
  torn :
      is_ok status ≡ false
      → (k : ℕ) → k ≤ length (encoding r)
      → (0 < k → IsAccepted o r)
      → c' ≡ c ++ take k (encoding r)
      → Appended o r w c status w' c'

pub encode-err :
    (r : WalRecord) (o : Options) (e : Status) → encode_wal_record r o ≡ err e → is_ok e ≡ false
unfolding encode_wal_record
encode-err r o e h = ground arith

remember_failure-is_ok : (e : Status) (w : WalWriter) → is_ok (remember_failure e w).0 ≡ false
remember_failure-is_ok e w = ground arith

module _ {S : Type 0} (file : WritableFile S) (l : IsLogFile file) (fuel : ℕ) where
  abbrev pub Appends : Options → WalRecord → SyncMode → WalWriter → S → Type 0
  Appends o r mode w s =
      (status : Status) × (w' : WalWriter) × (s' : S) × (append file fuel r mode w s
        ≡ some ((status, w'), s'))
      × Appended o r w (l.appending.content s) status w' (l.appending.content s')

  -- WriteAll from the start of its input.
  whole_write :
      (bytes : Bytes) (s : S)
      → length bytes + l.appending.patience s < fuel
      → (status : Status) × (s' : S) × (write_all file fuel bytes 0 s ≡ some (status, s'))
        × (k : ℕ) × (k ≤ length bytes)
        × (l.appending.content s' ≡ l.appending.content s ++ take k bytes)
        × (is_ok status ≡ true → l.appending.content s' ≡ l.appending.content s ++ bytes)
  whole_write bytes s enough =
      let (status, s', e, done) =
        write_all_total file l.appending bytes fuel 0 s (omega arith) (omega arith) in
      (
        status,
        s',
        e,
        done.appended,
        omega (arith, done.partial),
        done.grown,
        λ good.
            done.grown
            ∙ ap (λ (t : Bytes). l.appending.content s ++ t)
                (take_all bytes done.appended (omega (arith, done.complete good))),
      )

  encoded :
      (o : Options) (r : WalRecord) (mode : SyncMode) (w : WalWriter) (s : S)
      → is_ok w.status ≡ true
      → w.options ≡ o
      → is_invalid mode ≡ false
      → length (encoding r) + l.appending.patience s < fuel
      → IsAccepted o r
      → Appends o r mode w s
  unfolding append
  encoded o r mode w s running opts known enough a =
      let (status, s', e, k, few, grown_by, all) = whole_write (encoding r) s enough in
      let code : encode_wal_record r w.options ≡ ok (encoding r) = rw opts (encode_lem r o a) in
      elim (Bool-cases (is_ok status)) [
        | inr bad ↦ (
          (remember_failure status w).0,
          (remember_failure status w).1,
          s',
          ground (arith, code, e, bad, running, known),
          torn (remember_failure-is_ok status w) k few (λ _. a) grown_by,
        )
        | inl good ↦
            let grown = all good in
            elim (Bool-cases (is_sync mode)) [
              | inr no_sync ↦ (
                ok_status,
                w,
                s',
                ground (arith, code, e, good, running, known, no_sync),
                appended refl refl a grown,
              )
              | inl sync ↦ elim (Bool-cases (is_ok (file.sync s').0)) [
                | inl synced ↦ (
                  ok_status,
                  w,
                  (file.sync s').1,
                  ground (arith, code, e, good, running, known, sync, synced),
                  appended refl refl a (l.syncs s' ∙ grown),
                )
                | inr unsynced ↦ (
                  (remember_failure (file.sync s').0 w).0,
                  (remember_failure (file.sync s').0 w).1,
                  (file.sync s').1,
                  ground (arith, code, e, good, running, known, sync, unsynced),
                  torn (remember_failure-is_ok (file.sync s').0 w) (length (encoding r))
                      (omega arith) (λ _. a)
                      (l.syncs s'
                        ∙ grown
                        ∙ ap (λ (t : Bytes). l.appending.content s ++ t)
                            (sym (take_all (encoding r) (length (encoding r)) (omega arith)))),
                )
              ]
            ]
      ]

  -- With fuel for any record of the format, Append returns: the record is in the file if the
  -- status is OK, and if not, some first part of it is, none of it if the encoder refused it.
  pub append_total :
      (o : Options) (r : WalRecord) (mode : SyncMode) (w : WalWriter) (s : S)
      → is_ok w.status ≡ true
      → w.options ≡ o
      → is_invalid mode ≡ false
      → 2 ^ 32 + l.appending.patience s ≤ fuel
      → Appends o r mode w s
  unfolding append
  append_total o r mode w s running opts known enough =
      elim (Result-cases (encode_wal_record r o)) [
        | inl (bytes, e) ↦
            let a = encode-IsAccepted r o e in
            encoded o r mode w s running opts known
              (omega (arith, a.size_fits, length-encoding r, enough)) a
        | inr (status, e) ↦
            let code : encode_wal_record r w.options ≡ err status = rw opts e in
            (
              status,
              w,
              s,
              ground (arith, code, running, known),
              torn (encode-err r o status e) 0 (omega arith) (λ h. absurd (omega arith))
                  (sym (append-nil (l.appending.content s))),
            )
      ]
