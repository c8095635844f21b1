-- ===== src/Manifest/Apply/Frontier.antt =====
-- What a successful edit does to the version: its id, its frontiers and its live files.
use mini_kv_storage_engine.Base.{
  ℕ, ◌+◌, ◌≤◌, ◌≡◌, refl, inl, inr, sym, ◌∙◌, ap, Bool, true, not, ◌&&◌, ◌||◌, List, [], ◌∷◌, ◌++◌,
  append-nil, append_assoc, All, arith, ◌==◌,
}
use mini_kv_storage_engine.Status.{is_ok}
use mini_kv_storage_engine.Result.{ok, Result-cases}
use mini_kv_storage_engine.Config.{Options}
use mini_kv_storage_engine.Manifest.{
  Version, VersionEdit, VersionTable, contains, insert_by, sort_by, validate_version,
}
use mini_kv_storage_engine.Manifest.Apply.{
  is_live, remove_deleted, add_tables, apply_edit, number_less, value_or,
}

is_live-insert :
    (n : ℕ) (less : VersionTable → VersionTable → Bool) (t : VersionTable) (ts : List VersionTable)
    → is_live n (insert_by less t ts) ≡ ((t.metadata.generation == n) || is_live n ts)
unfolding is_live insert_by
is_live-insert n less t [] = refl
is_live-insert n less t (u ∷ us) = ground (arith, is_live-insert n less t us)

is_live-sort :
    (n : ℕ) (less : VersionTable → VersionTable → Bool) (ts : List VersionTable)
    → is_live n (sort_by less ts) ≡ is_live n ts
unfolding is_live sort_by
is_live-sort n less [] = refl
is_live-sort n less (t ∷ ts) =
    is_live-insert n less t (sort_by less ts)
    ∙ ap (λ b. (t.metadata.generation == n) || b) (is_live-sort n less ts)

is_live-remove :
    (n : ℕ) (deletions : List ℕ) (ts : List VersionTable)
    → is_live n (remove_deleted deletions ts) ≡ (is_live n ts && not (contains n deletions))
unfolding is_live remove_deleted
is_live-remove n deletions [] = refl
is_live-remove n deletions (t ∷ ts) = ground (arith, is_live-remove n deletions ts)

is_live-append :
    (n : ℕ) (ts us : List VersionTable) → is_live n (ts ++ us) ≡ (is_live n ts || is_live n us)
unfolding is_live
is_live-append n [] us = refl
is_live-append n (t ∷ ts) us = ground (arith, is_live-append n ts us)

-- Every file of the list has a number that no version has given out.
abbrev pub IsFresh : Version → List VersionTable → Type 0
IsFresh v ts = All (λ t. v.next_file_number ≤ t.metadata.generation) ts

added :
    (v : Version) (deletions : List ℕ) (new tables out : List VersionTable)
    → add_tables v.next_file_number deletions new tables ≡ ok out
    → (out ≡ tables ++ new) × IsFresh v new
unfolding add_tables
added v deletions [] tables out e =
    let same : tables ≡ out = cc in (sym same ∙ sym (append-nil tables), tt)
added v deletions (t ∷ new) tables out e =
    let (grown, fresh) = added v deletions new (tables ++ (t ∷ [])) out (ground (arith, e)) in
    (grown ∙ append_assoc tables (t ∷ []) new, (ground (arith, e), fresh))

-- The version that Apply builds before it validates it.
abbrev candidate : Version → VersionEdit → List VersionTable → Version
candidate v edit tables = record {
  id = v.id + 1;
  next_file_number = value_or edit.next_file_number v.next_file_number;
  last_sequence = value_or edit.last_sequence v.last_sequence;
  tables = sort_by number_less tables;
}

accepted :
    (v v' : Version) (edit : VersionEdit) (options : Options) (tables : List VersionTable)
    → add_tables v.next_file_number edit.deleted_file_numbers edit.added_tables
        (remove_deleted edit.deleted_file_numbers v.tables)
      ≡ ok tables
    → apply_edit v edit options ≡ ok v'
    → (v' ≡ candidate v edit tables)
      × (is_ok (validate_version (candidate v edit tables) options) ≡ true)
      × (v.next_file_number ≤ (candidate v edit tables).next_file_number)
      × (v.last_sequence ≤ (candidate v edit tables).last_sequence)
unfolding apply_edit
accepted v v' edit options tables a e = ground (arith, a, e)

-- An edit that Apply accepts gives a version that passes the validation again, with the next id
-- and with frontiers that are not lower. Its live files are the old ones without the deleted
-- ones, and the added ones, whose numbers no earlier version had given out.
pub apply_edit-Frontier :
    (v v' : Version) (edit : VersionEdit) (options : Options)
    → apply_edit v edit options ≡ ok v'
    → (is_ok (validate_version v' options) ≡ true)
      × (v'.id ≡ v.id + 1)
      × (v.next_file_number ≤ v'.next_file_number)
      × (v.last_sequence ≤ v'.last_sequence)
      × IsFresh v edit.added_tables
      × ((n : ℕ)
          → is_live n v'.tables ≡ (
              (is_live n v.tables && not (contains n edit.deleted_file_numbers))
              || is_live n edit.added_tables))
unfolding apply_edit
apply_edit-Frontier v v' edit options e =
    elim (Result-cases (
      add_tables v.next_file_number edit.deleted_file_numbers edit.added_tables
        (remove_deleted edit.deleted_file_numbers v.tables))) [
          | inr (status, bad) ↦ absurd (ground (arith, bad, e))
          | inl (tables, good) ↦
              let (same, valid, next, last) = accepted v v' edit options tables good e in
              let (all, fresh) =
                added v edit.deleted_file_numbers edit.added_tables _ tables good in
              rw same (
                valid,
                refl,
                next,
                last,
                fresh,
                λ n.
                    is_live-sort n number_less tables
                    ∙ ap (is_live n) all
                    ∙ is_live-append n _ edit.added_tables
                    ∙ ap (λ b. b || is_live n edit.added_tables)
                        (is_live-remove n edit.deleted_file_numbers v.tables),
              )
        ]
