-- ===== src/Recovery/Loop.antt =====
-- The recovery loop on a log whose last record may be torn.
use mini_kv_storage_engine.Base.{
  ℕ, suc, ◌+◌, ◌-◌, ◌≤◌, ◌<◌, ◌≡◌, refl, sym, ap, ◌∙◌, true, false, some, [], ◌++◌, subst, arith,
  length, length-append, take, take-append, drop-append, ltb,
}
use mini_kv_storage_engine.Bytes.{Bytes}
use mini_kv_storage_engine.Status.{ok_status}
use mini_kv_storage_engine.Result.{Result, ok}
use mini_kv_storage_engine.Io.{Io}
use mini_kv_storage_engine.Config.{Options, max_u64}
use mini_kv_storage_engine.Wal.{WalRecord, header_size, decode_wal_record_header}
use mini_kv_storage_engine.Wal.Layout.{layout, decode_header-layout}
use mini_kv_storage_engine.Wal.Encoded.{
  IsRecord, IsAccepted, header_of, encoding, header_of-IsHeader,
}
use mini_kv_storage_engine.Wal.RoundTrip.{length-encoding}
use mini_kv_storage_engine.File.{RecoveryFile, read_all_at}
use mini_kv_storage_engine.File.Reading.{IsReadable, region, read_all_at_total}
use mini_kv_storage_engine.Recovery.{Recovered, read_or, recover_loop, replay_record}
use mini_kv_storage_engine.Recovery.Replay.{IsReplayed, advance, replay_record-advance}

-- A readable file whose size, truncation and synchronisation succeed, as fstat(2), ftruncate(2)
-- and fdatasync(2) document them.
pub record IsHealthy {S : Type 0} (file : RecoveryFile S) : Type 0 where
  pub readable : IsReadable file
  pub sized :
      (s : S)
      → ((file.size s).0 ≡ (ok_status, length (readable.content s)))
        × (readable.content (file.size s).1 ≡ readable.content s)
        × (readable.patience (file.size s).1 ≤ readable.patience s)
  pub truncates :
      (n : ℕ) (s : S)
      → n ≤ length (readable.content s)
      → ((file.truncate n s).0 ≡ ok_status)
        × (readable.content (file.truncate n s).1 ≡ take n (readable.content s))
  pub syncs :
      (s : S)
      → ((file.sync s).0 ≡ ok_status) × (readable.content (file.sync s).1 ≡ readable.content s)

module _ {S : Type 0} (file : RecoveryFile S) (h : IsHealthy file) (retries : ℕ) where
  read_or-ok :
      (offset size : ℕ) (s s' : S) (r : Result Bytes) {bytes : Bytes} (tail : Io S Recovered)
      (go_on : Bytes → Io S Recovered)
      → read_all_at file retries offset size [] 0 s ≡ some (r, s')
      → r ≡ ok bytes
      → read_or file retries offset size tail go_on s ≡ go_on bytes s'
  read_or-ok offset size s s' r tail go_on e f = rw (e, f, read_or) refl

  -- A region in the middle of the file is read, and the loop goes on with its bytes.
  pub read_or_region :
      (pre bytes post : Bytes) (n : ℕ) (s : S)
      → n ≡ length bytes
      → h.readable.content s ≡ pre ++ (bytes ++ post)
      → length (h.readable.content s) ≤ max_u64
      → n + h.readable.patience s < retries
      → (s' : S) × ((tail : Io S Recovered)
          → (go_on : Bytes → Io S Recovered)
          → read_or file retries (length pre) n tail go_on s ≡ go_on bytes s')
        × (h.readable.content s' ≡ h.readable.content s)
        × (h.readable.patience s' ≤ h.readable.patience s)
  read_or_region pre bytes post n s k e fits m =
      let size = length-append pre (bytes ++ post) in
      let size' = length-append bytes post in
      let total = ap length e in
      let (s', reads, kept, patient) =
        read_all_at_total file h.readable (length pre) n retries 0 s (omega arith)
          (omega (arith, size, total)) fits (omega arith) in
      let found : region file (h.readable.content s) (length pre) n ≡ ok bytes =
        rw (e, drop-append pre (bytes ++ post) (length pre) refl, take-append bytes post n k)
          (ground (arith, size, size')) in
      (s', λ tail go_on. read_or-ok (length pre) n s s' _ tail go_on reads found, kept, patient)

  -- The bytes of a record in the file: first its header is read, then all of it.
  module _ (o : Options) (pre post : Bytes) (r : WalRecord) (w : IsRecord r)
      (a : IsAccepted o r) where
    header_region : decode_wal_record_header (layout (header_of r) []) o ≡ ok (header_of r)
    header_region = decode_header-layout o (header_of r) [] (header_of-IsHeader r o w a)

    pub one_round :
        (fuel : ℕ) (s : S) (recovered : Recovered)
        → h.readable.content s ≡ pre ++ (encoding r ++ post)
        → length (h.readable.content s) ≤ max_u64
        → length (h.readable.content s) + h.readable.patience s < retries
        → IsReplayed o (length pre) recovered
        → recovered.1.max_sequence < r.sequence
        → (s' : S) × (recover_loop file
              (suc fuel)
              retries
              o
              (length (h.readable.content s))
              (length pre)
              recovered
              s
            ≡ recover_loop file fuel retries o
                (length (h.readable.content s))
                (length pre + length (encoding r))
                (advance r (length pre) recovered)
                s')
          × (h.readable.content s' ≡ h.readable.content s)
          × (h.readable.patience s' ≤ h.readable.patience s)
    unfolding recover_loop
    one_round fuel s recovered e fits m v above =
        let payload = r.key ++ r.value in
        let size = length-encoding r in
        let all = length-append pre (encoding r ++ post) in
        let all' = length-append (encoding r) post in
        let total = ap length e in
        let inside : ltb (length pre) (length (h.readable.content s)) ≡ true =
          ground (arith, size, all, all', total) in
        let head : ltb (length (h.readable.content s) - length pre) header_size ≡ false =
          ground (arith, size, all, all', total) in
        let body : ltb (length (h.readable.content s) - length pre) (header_of r).record_size
            ≡ false =
          ground (arith, size, all, all', total) in
        let (s1, follow1, kept1, patient1) =
          read_or_region pre (layout (header_of r) []) (payload ++ post) header_size s refl e fits
            (omega (arith, size, all, all', total)) in
        let (s2, follow2, kept2, patient2) =
          read_or_region pre (encoding r) post (header_of r).record_size s1 (sym size) (kept1 ∙ e)
            (rw kept1 fits) (omega (arith, size, all, all', total)) in
        let replayed =
          replay_record-advance o r (length pre) recovered w v
            (a, above, omega (arith, all, all', total)) in
        let replayed' : replay_record o (length pre) (header_of r).record_size (encoding r)
              recovered
            ≡ ok (advance r (length pre) recovered) =
          subst
            (λ n.
              replay_record o (length pre) n (encoding r) recovered
              ≡ ok (advance r (length pre) recovered))
            size replayed in
        let moved =
          ap
            (λ (n : ℕ).
              recover_loop file fuel retries o (length (h.readable.content s)) (length pre + n)
                (advance r (length pre) recovered) s2)
            (sym size) in
        (
          s2,
          rw (inside, head, recover_loop)
              (follow1 _ _ ∙ rw (header_region, body) (follow2 _ _ ∙ rw replayed' moved)),
          kept2 ∙ kept1,
          omega arith,
        )
