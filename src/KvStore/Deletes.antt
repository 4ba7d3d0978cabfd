-- ===== src/KvStore/Deletes.antt =====
-- kv_store_delete() of chapter_59/kv_store.c in a valid store: it comes back, with a status, and
-- changes nothing or removes the record.
use tlpi_solutions.Common.{
  ℕ, ◌-◌, ◌<◌, ◌≡◌, inl, inr, some, List, arith, length, get_elem?, true, false, Bool-cases, ◌>>=◌,
}
use tlpi_solutions.KvStore.{
  KvRecord, KvStatus, kv_ok, kv_err_notfound, kv_err_perm, SockAddr, Store, deref, same_ip_address,
  kv_store_delete, kv_store_get_idx, remove_at,
}
use tlpi_solutions.KvStore.Keys.{HasKey}
use tlpi_solutions.KvStore.Validity.{IsValid}
use tlpi_solutions.KvStore.Search.{search_cases}
use tlpi_solutions.KvStore.Effects.{removed, slot, deref-inv}
use tlpi_solutions.KvStore.Preserve.{removed-IsValid}
use tlpi_solutions.KvStore.Sets.{IsAbsent}

-- How a delete of the key `k` by `c` can end.
pub data DeleteOutcome (s : Store) (k : List ℕ) (c : SockAddr) : KvStatus → Store → Type 0 where
  not_found : IsAbsent s k → DeleteOutcome s k c kv_err_notfound s
  forbidden :
      (i : ℕ) (q : KvRecord)
      → i < s.record_cnt
      → deref s i ≡ some q
      → HasKey k q
      → same_ip_address c q.client_addr ≡ false
      → DeleteOutcome s k c kv_err_perm s
  deleted :
      (i existing last : ℕ) (q : KvRecord)
      → i < s.record_cnt
      → get_elem? s.records i ≡ some existing
      → get_elem? s.records (s.record_cnt - 1) ≡ some last
      → deref s i ≡ some q
      → HasKey k q
      → same_ip_address c q.client_addr ≡ true
      → DeleteOutcome s k c kv_ok (removed s i existing last)

remove_at-removed :
    (s : Store) (i existing last : ℕ) (q : KvRecord)
    → get_elem? s.records i ≡ some existing
    → get_elem? s.records (s.record_cnt - 1) ≡ some last
    → s.heap existing ≡ some q
    → remove_at s i ≡ some (kv_ok, removed s i existing last)
unfolding remove_at
remove_at-removed s i existing last q at end here =
    rw (at, ◌>>=◌) (rw (end, ◌>>=◌) (rw (here, ◌>>=◌)))

abbrev pub DeleteResult : Store → List ℕ → SockAddr → Type 0
DeleteResult s k c =
    (st : KvStatus) × (s' : Store) × (kv_store_delete s k (length k) c ≡ some (st, s'))
    × DeleteOutcome s k c st s'

module _ (s : Store) (v : IsValid s) (k : List ℕ) (c : SockAddr) where
  delete_present :
      (i : ℕ) (q : KvRecord)
      → i < s.record_cnt
      → deref s i ≡ some q
      → HasKey k q
      → kv_store_get_idx s k (length k) ≡ some (some i)
      → same_ip_address c q.client_addr ≡ true
      → DeleteResult s k c
  unfolding kv_store_delete
  delete_present i q lt d has e own =
      let (existing, at, here) = deref-inv s i d in
      let (last, x, end, there) = slot s v (s.record_cnt - 1) (omega arith) in
      (
        kv_ok,
        removed s i existing last,
        rw (e, ◌>>=◌) (rw (d, ◌>>=◌) (rw own (remove_at-removed s i existing last q at end here))),
        deleted i existing last q lt at end d has own,
      )

  -- A delete in a valid store comes back, and ends in one of the three ways.
  pub delete_cases : DeleteResult s k c
  unfolding kv_store_delete
  delete_cases = elim (search_cases s v k) [
    | inl (e, absent) ↦ (kv_err_notfound, s, rw (e, ◌>>=◌), not_found absent)
    | inr (i, q, lt, e, d, has) ↦ elim (Bool-cases (same_ip_address c q.client_addr)) [
      | inl own ↦ delete_present i q lt d has e own
      | inr foreign ↦ (
        kv_err_perm,
        s,
        rw (e, ◌>>=◌) (rw (d, ◌>>=◌) (rw foreign)),
        forbidden i q lt d has foreign,
      )
    ]
  ]

-- The outcome of a delete keeps the invariant.
pub DeleteOutcome-IsValid :
    (s : Store) (k : List ℕ) (c : SockAddr) {st : KvStatus} {s' : Store}
    → DeleteOutcome s k c st s'
    → IsValid s
    → IsValid s'
DeleteOutcome-IsValid s k c (not_found _) v = v
DeleteOutcome-IsValid s k c (forbidden _ _ _ _ _ _) v = v
DeleteOutcome-IsValid s k c (deleted i existing last q lt at end d has own) v =
    removed-IsValid s v i existing last lt at end
