-- ===== src/KvStore/Validity.antt =====
-- The representation invariant of chapter_59/kv_store.c: the live slots hold allocated records of
-- different keys, and every allocated record is in a live slot.
use tlpi_solutions.Common.{ℕ, ◌<◌, ◌≤◌, ◌≡◌, some, List, length, get_elem?}
use tlpi_solutions.KvStore.{KvRecord, Store, max_records, deref}
use tlpi_solutions.KvStore.Keys.{HasKey, IsRecord}

pub record IsValid (s : Store) : Type 0 where
  pub slots : length s.records ≡ max_records
  pub fits : s.record_cnt ≤ max_records
  -- no dangling pointer in a live slot
  pub held : (i : ℕ) → i < s.record_cnt → (r : KvRecord) × (deref s i ≡ some r) × IsRecord r
  -- no two live slots hold records of one key
  pub unique :
      (i j : ℕ) (r q : KvRecord) (k : List ℕ)
      → i < s.record_cnt
      → j < s.record_cnt
      → deref s i ≡ some r
      → deref s j ≡ some q
      → HasKey k r
      → HasKey k q
      → i ≡ j
  -- no leak
  pub owned :
      (p : ℕ) (r : KvRecord)
      → s.heap p ≡ some r
      → (i : ℕ) × (i < s.record_cnt) × (get_elem? s.records i ≡ some p)
