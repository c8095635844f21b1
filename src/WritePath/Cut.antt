-- ===== src/WritePath/Cut.antt =====
-- A log file that is cut anywhere: the records in front of the cut, and a torn one.
use mini_kv_storage_engine.Base.{
  ℕ, ◌+◌, ◌-◌, ◌≤◌, ◌<◌, ◌≡◌, refl, sym, ap, ◌∙◌, List, [], ◌∷◌, ◌++◌, arith, length, length-append,
  take, Bool-cases, inl, inr, ltb, append_assoc, take_all, take-append_ge, zero, suc,
}
use mini_kv_storage_engine.Bytes.{Bytes}
use mini_kv_storage_engine.Config.{Options}
use mini_kv_storage_engine.WritePath.Log.{encodings-append}
use mini_kv_storage_engine.Wal.{WalRecord}
use mini_kv_storage_engine.Wal.Encoded.{encoding}
use mini_kv_storage_engine.Wal.RoundTrip.{length-encoding}
use mini_kv_storage_engine.Recovery.Replay.{encodings, IsLog}
use mini_kv_storage_engine.Recovery.Tail.{Torn, remains}

-- The first `n` bytes of the log: the records before the cut, and a torn one. Any part of the log
-- that lies in front of the cut is kept.
pub record IsCut (o : Options) (from : ℕ) (all : List WalRecord) (n : ℕ) : Type 0 where
  pub before : List WalRecord
  pub behind : List WalRecord
  pub torn : Torn o
  pub bytes : take n (encodings all) ≡ encodings before ++ remains torn
  pub whole : before ++ behind ≡ all
  pub log : IsLog o from before
  pub kept :
      (q rest : List WalRecord)
      → q ++ rest ≡ all
      → length (encodings q) ≤ n
      → (u : List WalRecord) × (q ++ u ≡ before)

-- Nothing of a record is in the file.
abbrev no_torn : {o : Options} → WalRecord → Torn o
no_torn any = record {
  torn = any;
  kept = 0;
  made = λ h. absurd (omega arith);
  accepted = λ h. absurd (omega arith);
  cut = omega (arith, length-encoding any);
}

pub take-append_le : (xs ys : Bytes) (n : ℕ) → n ≤ length xs → take n (xs ++ ys) ≡ take n xs
take-append_le xs ys zero h = refl
take-append_le [] ys (suc n) h = absurd (omega (arith, h))
take-append_le (x ∷ xs) ys (suc n) h = ap (λ l. x ∷ l) (take-append_le xs ys n (omega (arith, h)))

none_before :
    (r : WalRecord) (rs : List WalRecord) (n : ℕ) (q rest : List WalRecord)
    → n < length (encoding r)
    → q ++ rest ≡ r ∷ rs
    → length (encodings q) ≤ n
    → (u : List WalRecord) × (q ++ u ≡ [])
unfolding encodings
none_before r rs n [] rest inside e h = ([], refl)
none_before r rs n (y ∷ q) rest inside e h =
    let same : y ≡ r = cc in
    absurd
      (omega (arith, ap (λ x. length (encoding x)) same, length-append (encoding y) (encodings q)))

some_before :
    (r : WalRecord) (rs before : List WalRecord) (n : ℕ)
    → ((q rest : List WalRecord)
        → q ++ rest ≡ rs
        → length (encodings q) ≤ n - length (encoding r)
        → (u : List WalRecord) × (q ++ u ≡ before))
    → (q rest : List WalRecord) → q ++ rest ≡ r ∷ rs
    → length (encodings q) ≤ n
    → (u : List WalRecord) × (q ++ u ≡ r ∷ before)
unfolding encodings
some_before r rs before n ih [] rest e h = (r ∷ before, refl)
some_before r rs before n ih (y ∷ q) rest e h =
    let same : y ≡ r = cc in
    let (u, f) = ih q rest (cc) (
      omega
        (arith, h, ap (λ x. length (encoding x)) same, length-append (encoding y) (encodings q))) in
    (u, cc)

pub cut :
    (o : Options) (from n : ℕ) (any : WalRecord) (all : List WalRecord)
    → IsLog o from all
    → IsCut o from all n
unfolding encodings
cut o from n any [] l = record {
  before = [];
  behind = [];
  torn = no_torn any;
  bytes = take_all [] n (omega arith);
  whole = refl;
  log = tt;
  kept = λ q rest e h. (rest, e);
}
cut o from n any (r ∷ rs) (w, a, above, l) = elim (Bool-cases (ltb n (length (encoding r)))) [
  | inl inside ↦ record {
    before = [];
    behind = r ∷ rs;
    torn = record {
      torn = r;
      kept = n;
      made = λ h. w;
      accepted = λ h. a;
      cut = ground (arith, inside);
    };
    bytes = take-append_le (encoding r) (encodings rs) n (ground (arith, inside));
    whole = refl;
    log = tt;
    kept = λ q rest e h. none_before r rs n q rest (ground (arith, inside)) e h;
  }
  | inr past ↦
      let c = cut o r.sequence (n - length (encoding r)) any rs l in
      record {
        before = r ∷ c.before;
        behind = c.behind;
        torn = c.torn;
        bytes =
            take-append_ge (encoding r) (encodings rs) n (ground (arith, past))
            ∙ ap (λ (x : Bytes). encoding r ++ x) c.bytes
            ∙ sym (append_assoc (encoding r) (encodings c.before) (remains c.torn));
        whole = ap (λ x. r ∷ x) c.whole;
        log = (w, a, above, c.log);
        kept = some_before r rs c.before n c.kept;
      }
]

-- Two cuts are one.
pub taken_twice :
    (n m : ℕ) (xs : Bytes)
    → (j : ℕ) × (take n (take m xs) ≡ take j xs) × ((len : ℕ) → len ≤ n → len ≤ m → len ≤ j)
taken_twice n zero xs = (0, take_all [] n (omega arith), λ len p q. q)
taken_twice zero (suc m) xs = (0, refl, λ len p q. p)
taken_twice (suc n) (suc m) [] = (suc n, refl, λ len p q. p)
taken_twice (suc n) (suc m) (x ∷ xs) =
    let (j, e, most) = taken_twice n m xs in
    (
      suc j,
      ap (λ l. x ∷ l) e,
      λ len p q. omega (arith, most (len - 1) (omega (arith, p)) (omega (arith, q))),
    )

pub length-encodings_le :
    (q rest : List WalRecord) → length (encodings q) ≤ length (encodings (q ++ rest))
unfolding encodings
length-encodings_le [] rest = omega arith
length-encodings_le (r ∷ q) rest = omega (
  arith,
  length-append (encoding r) (encodings q),
  length-append (encoding r) (encodings (q ++ rest)),
  length-encodings_le q rest,
)

pub append_all : (before behind u : List WalRecord) → (before ++ behind) ++ u ≡ before → behind ≡ []
append_all [] [] u e = refl
append_all [] (x ∷ behind) u e = cc
append_all (x ∷ before) behind u e = append_all before behind u (cc)

pub torn_content :
    (rs : List WalRecord) (r : WalRecord) (k : ℕ)
    → encodings rs ++ take k (encoding r)
      ≡ take (length (encodings rs) + k) (encodings (rs ++ (r ∷ [])))
torn_content rs r k =
    let same : length (encodings rs) + k - length (encodings rs) ≡ k = omega arith in
    sym (
      ap (take (length (encodings rs) + k)) (encodings-append rs r)
      ∙ take-append_ge (encodings rs) (encoding r) (length (encodings rs) + k) (omega arith)
      ∙ ap (λ (j : ℕ). encodings rs ++ take j (encoding r)) same)
