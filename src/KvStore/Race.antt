-- ===== src/KvStore/Race.antt =====
-- What happens to the pointer that kv_store_get() of chapter_59/kv_store.c hands out when another
-- thread changes the store before the caller reads the record (send_response() of
-- chapter_59/kv_server.c reads it after the mutex is released).
use tlpi_solutions.Common.{
  ℕ, ◌<◌, ◌≡◌, ◌∙◌, sym, none, some, Option, List, arith, length, get_elem?, ◌>>=◌,
}
use tlpi_solutions.KvStore.{
  KvRecord, KvStatus, kv_ok, kv_err_notfound, SockAddr, Store, deref, new_record, kv_store_get,
  kv_store_set, kv_store_delete,
}
use tlpi_solutions.KvStore.Keys.{HasKey}
use tlpi_solutions.KvStore.Validity.{IsValid}
use tlpi_solutions.KvStore.Search.{search_found, search_missing}
use tlpi_solutions.KvStore.Effects.{deref-inv}
use tlpi_solutions.KvStore.Sets.{
  IsFresh, SetOutcome, full, denied, no_memory_add, no_memory_update, added, updated, set_cases,
  IsAbsent,
}
use tlpi_solutions.KvStore.Deletes.{DeleteOutcome, not_found, forbidden, deleted, delete_cases}

module _ (s : Store) (v : IsValid s) (k : List ℕ) (p : ℕ) where
  -- The pointer that a get hands out is that of the slot that holds the key.
  handed_out :
      kv_store_get s k (length k) ≡ some (kv_ok, some p)
      → (i : ℕ) (q : KvRecord) → i < s.record_cnt
      → deref s i ≡ some q
      → HasKey k q
      → get_elem? s.records i ≡ some p
  unfolding kv_store_get
  handed_out got i q lt at has =
      let (old, here, there) = deref-inv s i at in
      let ran : kv_store_get s k (length k) ≡ some (kv_ok, some old) =
        rw (search_found s v k i q lt at has, ◌>>=◌) (rw (here, ◌>>=◌)) in
      let same : old ≡ p = ground arith in rw (← same) here

  not-IsAbsent : kv_store_get s k (length k) ≡ some (kv_ok, some p) → ¬ IsAbsent s k
  unfolding kv_store_get
  not-IsAbsent got absent =
      let ran : kv_store_get s k (length k) ≡ some (kv_err_notfound, none) =
        rw (search_missing s v k absent, ◌>>=◌) in
      ground arith

  module _ (got : kv_store_get s k (length k) ≡ some (kv_ok, some p)) where
    delete_frees :
        (c : SockAddr) {st : KvStatus} {s' : Store}
        → DeleteOutcome s k c st s'
        → st ≡ kv_ok
        → s'.heap p ≡ none
    delete_frees c (not_found absent) e = cc
    delete_frees c (forbidden i q lt at has foreign) e = cc
    delete_frees c (deleted i existing last q lt slot end at has own) e =
        let same : existing ≡ p = cc (handed_out got i q lt at has) in ground arith

    set_frees :
        (val : List ℕ) (c : SockAddr) (alloc : Option ℕ) {st : KvStatus} {s' : Store}
        → SetOutcome s k c (new_record k (length k) val (length val) c) alloc st s'
        → st ≡ kv_ok
        → s'.heap p ≡ none
    set_frees val c alloc (full absent e') e = cc
    set_frees val c alloc (denied i q lt at has foreign) e = cc
    set_frees val c alloc (no_memory_add e' absent room) e = cc
    set_frees val c alloc (no_memory_update i q e' lt at has own) e = cc
    set_frees val c alloc (added a e' fresh absent room) e = absurd (not-IsAbsent got absent)
    set_frees val c alloc (updated a i old q e' fresh lt slot at has own) e =
        let same : old ≡ p = cc (handed_out got i q lt at has) in ground arith

    -- In a valid store where a get of `k` hands out the pointer `p`: after a delete of `k` that
    -- succeeds, and after a set of `k` that succeeds, `p` points to memory that is not allocated.
    pub get_pointer_dangles :
        ((c : SockAddr) (s' : Store)
          → kv_store_delete s k (length k) c ≡ some (kv_ok, s')
          → s'.heap p ≡ none)
        × ((val : List ℕ) (c : SockAddr) (alloc : Option ℕ) (s' : Store)
            → IsFresh s alloc
            → kv_store_set s k (length k) val (length val) c alloc ≡ some (kv_ok, s')
            → s'.heap p ≡ none)
    get_pointer_dangles = (
      λ c s' e.
          (let (st, t, e', outcome) = delete_cases s v k c in
            let ends : some (st, t) ≡ some (kv_ok, s') = sym e' ∙ e in
            let same : t ≡ s' = cc in rw (← same) (delete_frees c outcome (cc))),
      λ val c alloc s' fresh e.
          (let (st, t, e', outcome) = set_cases s v k val c alloc fresh in
            let ends : some (st, t) ≡ some (kv_ok, s') = sym e' ∙ e in
            let same : t ≡ s' = cc in rw (← same) (set_frees val c alloc outcome (cc))),
    )
