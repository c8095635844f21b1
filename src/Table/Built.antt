-- ===== src/Table/Built.antt =====
-- The loop of EncodeTable over the records: what its locals hold at every step.
use mini_kv_storage_engine.Base.{
  subst, ◌+◌, ◌%◌, ◌^◌, ◌<◌, ◌≡◌, refl, sym, ap, ◌∙◌, true, List, [], ◌∷◌, ◌++◌, append-nil,
  append_assoc, arith, length, length-append, All, All-append, inl, inr, Bool-cases, if◌then◌else◌,
  ◌==◌,
}
use mini_kv_storage_engine.Bytes.{Bytes}
use mini_kv_storage_engine.Result.{ok, Result-cases}
use mini_kv_storage_engine.Config.{Options}
use mini_kv_storage_engine.MemTable.{MemTableRecord}
use mini_kv_storage_engine.Wal.{encode_wal_record}
use mini_kv_storage_engine.Wal.Encoded.{IsRecord, encoding, encode_lem, encode-IsAccepted}
use mini_kv_storage_engine.Wal.RoundTrip.{length-encoding}
use mini_kv_storage_engine.Table.{table_header_size, block_header_size}
use mini_kv_storage_engine.Table.Build.{
  Builder, new_builder, block_is_full, wal_record, finish_block, append_record, add_entry,
  add_entries,
}
use mini_kv_storage_engine.Table.Blocks.{
  IsStorable, IsBlock, payload_of, block_of, length-block_of, finished_data,
}
use mini_kv_storage_engine.Table.Groups.{
  Groups, all_records, first_key_of, data_of, index_of, lowest, highest, all_records_snoc,
  data_of_snoc, index_of_snoc, lowest_snoc, highest_snoc,
}

-- The finished blocks are `gs`, and the block that is open holds `open_records`.
pub record IsBuilding (o : Options) (gs : Groups) (open_records : List MemTableRecord) (b : Builder)
    : Type 0 where
  pub data_bytes : b.data_bytes ≡ data_of gs
  pub index_entries : b.index_entries ≡ index_of table_header_size gs
  pub block_payload : b.block_payload ≡ payload_of open_records
  pub first_key : b.first_key ≡ first_key_of open_records
  pub block_records : b.block_records ≡ length open_records
  pub minimum_sequence : b.minimum_sequence ≡ lowest (all_records gs ++ open_records)
  pub maximum_sequence : b.maximum_sequence ≡ highest (all_records gs ++ open_records)
  pub blocks : All (IsBlock o) gs
  pub storable : All (IsStorable o) open_records
  pub fits : length (payload_of open_records) < 2 ^ 32

pub new_builder-IsBuilding : (o : Options) → IsBuilding o [] [] new_builder
new_builder-IsBuilding o = record {
  data_bytes = refl;
  index_entries = refl;
  block_payload = refl;
  first_key = refl;
  block_records = refl;
  minimum_sequence = refl;
  maximum_sequence = refl;
  blocks = tt;
  storable = tt;
  fits = omega arith;
}

module _ (o : Options) (gs : Groups) (rs : List MemTableRecord) (b : Builder)
    (v : IsBuilding o gs rs b) where
  -- What FinishBlock makes of a block with records.
  finished :
      (b' : Builder)
      → 0 < length rs
      → finish_block b ≡ ok b'
      → (block_header_size + length (payload_of rs) < 2 ^ 32)
        × (b'.data_bytes ≡ data_of gs ++ block_of rs)
        × (b'.index_entries
            ≡ index_of table_header_size gs
              ++ index_of (table_header_size + length (data_of gs)) (rs ∷ []))
        × (b'.block_payload ≡ [])
        × (b'.first_key ≡ [])
        × (b'.block_records ≡ 0)
        × (b'.minimum_sequence ≡ b.minimum_sequence)
        × (b'.maximum_sequence ≡ b.maximum_sequence)
  unfolding finish_block
  finished b' some_records e =
      let size : (block_header_size + length (payload_of rs)) % 2 ^ 64
          ≡ block_header_size + length (payload_of rs) =
        omega (arith, v.fits) in
      ground (arith, v, e, some_records, size, finished_data rs (data_of gs), length-block_of rs)

payload_of_snoc :
    (rs : List MemTableRecord) (r : MemTableRecord)
    → payload_of (rs ++ r ∷ []) ≡ payload_of rs ++ encoding (wal_record r)
payload_of_snoc [] r = append-nil (encoding (wal_record r))
payload_of_snoc (s ∷ rs) r =
    ap (λ l. encoding (wal_record s) ++ l) (payload_of_snoc rs r)
    ∙ sym (append_assoc (encoding (wal_record s)) (payload_of rs) (encoding (wal_record r)))

first_key_of_snoc :
    (rs : List MemTableRecord) (r : MemTableRecord)
    → first_key_of (rs ++ r ∷ []) ≡ (if length rs == 0 then r.key else first_key_of rs)
first_key_of_snoc [] r = refl
first_key_of_snoc (s ∷ rs) r = ground arith

length_snoc :
    (rs : List MemTableRecord) (r : MemTableRecord) → length (rs ++ r ∷ []) ≡ length rs + 1
length_snoc rs r = length-append rs (r ∷ [])

-- The block that is open is finished.
pub finished-IsBuilding :
    (o : Options) (gs : Groups) (rs : List MemTableRecord) (b b' : Builder)
    → IsBuilding o gs rs b
    → 0 < length rs
    → finish_block b ≡ ok b'
    → IsBuilding o (gs ++ rs ∷ []) [] b'
finished-IsBuilding o gs rs b b' v some_records e =
    let (size_fits, bytes, entries, payload, key, records, low, high) =
      finished o gs rs b v b' some_records e in
    record {
      data_bytes = bytes ∙ sym (data_of_snoc gs rs);
      index_entries = entries ∙ sym (index_of_snoc gs table_header_size rs);
      block_payload = payload;
      first_key = key;
      block_records = records;
      minimum_sequence =
          rw (all_records_snoc gs rs, append-nil (all_records gs ++ rs)) (low ∙ v.minimum_sequence);
      maximum_sequence =
          rw (all_records_snoc gs rs, append-nil (all_records gs ++ rs))
            (high ∙ v.maximum_sequence);
      blocks = All-append (IsBlock o) gs (rs ∷ []) v.blocks (
        record { storable = v.storable; some_records = some_records; size_fits = size_fits },
        tt,
      );
      storable = tt;
      fits = omega arith;
    }

-- A record joins the block that is open.
append_record-IsBuilding :
    (o : Options) (gs : Groups) (rs : List MemTableRecord) (b b' : Builder) (r : MemTableRecord)
    → IsBuilding o gs rs b
    → IsStorable o r
    → append_record r (encoding (wal_record r)) b ≡ ok b'
    → IsBuilding o gs (rs ++ r ∷ []) b'
unfolding append_record
append_record-IsBuilding o gs rs b b' r v s e =
    let size = length-encoding (wal_record r) in
    let joined = payload_of_snoc rs r in
    let joined_size = length-append (payload_of rs) (encoding (wal_record r)) in
    let key = first_key_of_snoc rs r in
    let count = length_snoc rs r in
    let low = lowest_snoc (all_records gs ++ rs) r (omega (arith, s.0.sequence_fits)) in
    let high = highest_snoc (all_records gs ++ rs) r in
    let assoc = append_assoc (all_records gs) rs (r ∷ []) in
    record {
      data_bytes = ground (arith, v, e);
      index_entries = ground (arith, v, e);
      block_payload = ground (arith, v, e, joined);
      first_key = ground (arith, v, e, key);
      block_records = ground (arith, v, e, count);
      minimum_sequence = ground (arith, v, e, low, assoc);
      maximum_sequence = ground (arith, v, e, high, assoc);
      blocks = v.blocks;
      storable = All-append (IsStorable o) rs (r ∷ []) v.storable (s, tt);
      fits = ground (arith, v, e, joined, joined_size, size, s.1.size_fits);
    }

-- The finished blocks and the block that is open after one more round, with its record last.
record IsAdded (o : Options) (before : List MemTableRecord) (r : MemTableRecord) (b : Builder)
    : Type 0 where
  pub groups : Groups
  pub open_records : List MemTableRecord
  pub building : IsBuilding o groups (open_records ++ r ∷ []) b
  pub all : all_records groups ++ (open_records ++ r ∷ []) ≡ before ++ r ∷ []

module _ (o : Options) (gs : Groups) (rs : List MemTableRecord) (b : Builder)
    (v : IsBuilding o gs rs b) (r : MemTableRecord) (s : IsStorable o r) where
  with_room :
      (b' : Builder)
      → append_record r (encoding (wal_record r)) b ≡ ok b'
      → IsAdded o (all_records gs ++ rs) r b'
  with_room b' e = record {
    groups = gs;
    open_records = rs;
    building = append_record-IsBuilding o gs rs b b' r v s e;
    all = sym (append_assoc (all_records gs) rs (r ∷ []));
  }

  in_next_block :
      (b1 b' : Builder)
      → 0 < length rs
      → finish_block b ≡ ok b1
      → append_record r (encoding (wal_record r)) b1 ≡ ok b'
      → IsAdded o (all_records gs ++ rs) r b'
  in_next_block b1 b' some_records f e = record {
    groups = gs ++ rs ∷ [];
    open_records = [];
    building =
        append_record-IsBuilding o (gs ++ rs ∷ []) [] b1 b' r
          (finished-IsBuilding o gs rs b b1 v some_records f) s e;
    all = ap (λ l. l ++ r ∷ []) (all_records_snoc gs rs);
  }

  full-some_records : (encoded : Bytes) → block_is_full o b encoded ≡ true → 0 < length rs
  full-some_records encoded full = ground (arith, v.block_records, full)

  added :
      (b' : Builder)
      → encode_wal_record (wal_record r) o ≡ ok (encoding (wal_record r))
      → add_entry o r b ≡ ok b'
      → IsAdded o (all_records gs ++ rs) r b'
  unfolding add_entry
  added b' encodes e = elim (Bool-cases (block_is_full o b (encoding (wal_record r)))) [
    | inr room ↦ with_room b' (ground (arith, encodes, room, e))
    | inl full ↦ elim (Result-cases (finish_block b)) [
      | inl (b1, f) ↦
          in_next_block b1 b' (full-some_records (encoding (wal_record r)) full) f
            (ground (arith, encodes, full, f, e))
      | inr (status, f) ↦ absurd (ground (arith, encodes, full, f, e))
    ]
  ]

add_entry-IsAdded :
    (o : Options) (gs : Groups) (rs : List MemTableRecord) (b b' : Builder) (r : MemTableRecord)
    → IsBuilding o gs rs b
    → IsRecord (wal_record r)
    → add_entry o r b ≡ ok b'
    → IsAdded o (all_records gs ++ rs) r b'
unfolding add_entry
add_entry-IsAdded o gs rs b b' r v w e = elim (Result-cases (encode_wal_record (wal_record r) o)) [
  | inl (encoded, f) ↦
      let accepted = encode-IsAccepted (wal_record r) o f in
      added o gs rs b v r (w, accepted) b' (encode_lem (wal_record r) o accepted) e
  | inr (status, f) ↦ absurd (ground (arith, f, e))
]

-- The loop over the records, from any step on.
pub add_entries-IsBuilding :
    (o : Options) (entries : List MemTableRecord) (gs : Groups) (rs : List MemTableRecord)
    (b b' : Builder)
    → IsBuilding o gs rs b
    → All (λ r. IsRecord (wal_record r)) entries
    → 0 < length rs + length entries
    → add_entries o entries b ≡ ok b'
    → (gs' : Groups) × (rs' : List MemTableRecord) × IsBuilding o gs' rs' b'
      × (all_records gs' ++ rs' ≡ (all_records gs ++ rs) ++ entries)
      × (0 < length rs')
unfolding add_entries
add_entries-IsBuilding o [] gs rs b b' v w some_records e =
    let unchanged : b ≡ b' = ground (arith, e) in
    (
      gs,
      rs,
      subst (IsBuilding o gs rs) unchanged v,
      sym (append-nil (all_records gs ++ rs)),
      omega (arith, some_records),
    )
add_entries-IsBuilding o (r ∷ entries) gs rs b b' v w some_records e =
    elim (Result-cases (add_entry o r b)) [
      | inl (b1, f) ↦
          let a = add_entry-IsAdded o gs rs b b1 r v w.0 f in
          let (gs', rs', v', all, some') =
            add_entries-IsBuilding o entries a.groups (a.open_records ++ r ∷ []) b1 b' a.building
              w.1 (omega (arith, length_snoc a.open_records r)) (ground (arith, f, e)) in
          (
            gs',
            rs',
            v',
            all
                ∙ ap (λ l. l ++ entries) a.all
                ∙ append_assoc (all_records gs ++ rs) (r ∷ []) entries,
            some',
          )
      | inr (status, f) ↦ absurd (ground (arith, f, e))
    ]
