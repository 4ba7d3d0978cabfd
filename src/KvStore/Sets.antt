-- ===== src/KvStore/Sets.antt =====
-- kv_store_set() of chapter_59/kv_store.c in a valid store: it comes back, with a status and one
-- of the changes of Effects.
use tlpi_solutions.Common.{
  ℕ, ◌<◌, ◌≡◌, refl, sym, ◌∙◌, subst, inl, inr, none, some, Option, List, arith, length, get_elem?,
  true, false, leb, Bool-cases, ◌>>=◌, if◌then◌else◌,
}
use tlpi_solutions.KvStore.{
  KvRecord, KvStatus, kv_ok, kv_err_full, kv_err_nomem, kv_err_perm, SockAddr, Store, deref,
  max_records, same_key, same_ip_address, new_record, persist, check_set, kv_store_set,
  kv_store_get_idx,
}
use tlpi_solutions.KvStore.Keys.{HasKey, key-new_record, new_record-IsRecord}
use tlpi_solutions.KvStore.Validity.{IsValid}
use tlpi_solutions.KvStore.Search.{search_cases}
use tlpi_solutions.KvStore.Effects.{appended, replaced, deref-inv}
use tlpi_solutions.KvStore.Preserve.{appended-IsValid, replaced-IsValid}

-- No live record has the key `k`.
abbrev pub IsAbsent : Store → List ℕ → Type 0
IsAbsent s k =
    (j : ℕ) (q : KvRecord) → j < s.record_cnt → deref s j ≡ some q → same_key k (length k) q ≡ false

-- malloc() returns no address that is in use.
abbrev pub IsFresh : Store → Option ℕ → Type 0
IsFresh s alloc = (p : ℕ) → alloc ≡ some p → s.heap p ≡ none

-- How a set of the record `r` under the key `k` for `c` can end.
pub data SetOutcome (s : Store) (k : List ℕ) (c : SockAddr) (r : KvRecord) (alloc : Option ℕ)
    : KvStatus → Store → Type 0 where
  full : IsAbsent s k → s.record_cnt ≡ max_records → SetOutcome s k c r alloc kv_err_full s
  denied :
      (i : ℕ) (q : KvRecord)
      → i < s.record_cnt
      → deref s i ≡ some q
      → HasKey k q
      → same_ip_address c q.client_addr ≡ false
      → SetOutcome s k c r alloc kv_err_perm s
  no_memory_add :
      alloc ≡ none
      → IsAbsent s k
      → s.record_cnt < max_records
      → SetOutcome s k c r alloc kv_err_nomem s
  no_memory_update :
      (i : ℕ) (q : KvRecord)
      → alloc ≡ none
      → i < s.record_cnt
      → deref s i ≡ some q
      → HasKey k q
      → same_ip_address c q.client_addr ≡ true
      → SetOutcome s k c r alloc kv_err_nomem s
  added :
      (p : ℕ)
      → alloc ≡ some p
      → s.heap p ≡ none
      → IsAbsent s k
      → s.record_cnt < max_records
      → SetOutcome s k c r alloc kv_ok (appended s p r)
  updated :
      (p i old : ℕ) (q : KvRecord)
      → alloc ≡ some p
      → s.heap p ≡ none
      → i < s.record_cnt
      → get_elem? s.records i ≡ some old
      → deref s i ≡ some q
      → HasKey k q
      → same_ip_address c q.client_addr ≡ true
      → SetOutcome s k c r alloc kv_ok (replaced s i old p r)

persist-updated :
    (s : Store) (i p old : ℕ) (r q : KvRecord)
    → get_elem? s.records i ≡ some old
    → s.heap old ≡ some q
    → s.heap p ≡ none
    → persist s (some i) (some p) r ≡ some (kv_ok, replaced s i old p r)
unfolding persist
persist-updated s i p old r q at here fresh = ground arith

module _ (s : Store) (k val : List ℕ) (c : SockAddr) (o alloc : Option ℕ)
    (e : kv_store_get_idx s k (length k) ≡ some o) where
  set_proceeds :
      check_set s o c ≡ some kv_ok
      → kv_store_set s k (length k) val (length val) c alloc
        ≡ persist s o alloc (new_record k (length k) val (length val) c)
  unfolding kv_store_set
  set_proceeds checked = rw (e, ◌>>=◌) (rw (checked, ◌>>=◌))

  set_full :
      check_set s o c ≡ some kv_err_full
      → kv_store_set s k (length k) val (length val) c alloc ≡ some (kv_err_full, s)
  unfolding kv_store_set
  set_full checked = rw (e, ◌>>=◌) (rw (checked, ◌>>=◌))

  set_denied :
      check_set s o c ≡ some kv_err_perm
      → kv_store_set s k (length k) val (length val) c alloc ≡ some (kv_err_perm, s)
  unfolding kv_store_set
  set_denied checked = rw (e, ◌>>=◌) (rw (checked, ◌>>=◌))

check-present :
    (s : Store) (i : ℕ) (q : KvRecord) (c : SockAddr)
    → deref s i ≡ some q
    → check_set s (some i) c ≡ some (if same_ip_address c q.client_addr then kv_ok else kv_err_perm)
unfolding check_set
check-present s i q c d = rw (d, ◌>>=◌)

-- What the arguments of a set and the search determine.
abbrev pub SetResult : Store → List ℕ → List ℕ → SockAddr → Option ℕ → Type 0
SetResult s k val c alloc =
    (st : KvStatus) × (s' : Store) × (kv_store_set s k (length k) val (length val) c alloc
      ≡ some (st, s'))
    × SetOutcome s k c (new_record k (length k) val (length val) c) alloc st s'

module _ (s : Store) (v : IsValid s) (k val : List ℕ) (c : SockAddr) where
  set_missing :
      (alloc : Option ℕ)
      → IsFresh s alloc
      → IsAbsent s k
      → kv_store_get_idx s k (length k) ≡ some none
      → leb max_records s.record_cnt ≡ false
      → SetResult s k val c alloc
  unfolding persist
  set_missing none fresh absent e room =
      let checked : check_set s none c ≡ some kv_ok = unfold check_set in rw room in
      (
        kv_err_nomem,
        s,
        set_proceeds s k val c none none e checked,
        no_memory_add refl absent (ground arith),
      )
  set_missing (some p) fresh absent e room =
      let checked : check_set s none c ≡ some kv_ok = unfold check_set in rw room in
      (
        kv_ok,
        appended s p (new_record k (length k) val (length val) c),
        set_proceeds s k val c none (some p) e checked,
        added p refl (fresh p refl) absent (ground arith),
      )

  set_present :
      (alloc : Option ℕ) (i : ℕ) (q : KvRecord)
      → IsFresh s alloc
      → i < s.record_cnt
      → deref s i ≡ some q
      → HasKey k q
      → kv_store_get_idx s k (length k) ≡ some (some i)
      → same_ip_address c q.client_addr ≡ true
      → SetResult s k val c alloc
  unfolding persist
  set_present none i q fresh lt d has e own =
      let checked : check_set s (some i) c ≡ some kv_ok = rw (check-present s i q c d) (rw own) in
      (
        kv_err_nomem,
        s,
        set_proceeds s k val c (some i) none e checked,
        no_memory_update i q refl lt d has own,
      )
  set_present (some p) i q fresh lt d has e own =
      let checked : check_set s (some i) c ≡ some kv_ok = rw (check-present s i q c d) (rw own) in
      let r : KvRecord = new_record k (length k) val (length val) c in
      let (old, at, here) = deref-inv s i d in
      (
        kv_ok,
        replaced s i old p r,
        set_proceeds s k val c (some i) (some p) e checked
            ∙ persist-updated s i p old r q at here (fresh p refl),
        updated p i old q refl (fresh p refl) lt at d has own,
      )

  -- A set in a valid store comes back, and ends in one of the five ways.
  pub set_cases : (alloc : Option ℕ) → IsFresh s alloc → SetResult s k val c alloc
  set_cases alloc fresh = elim (search_cases s v k) [
    | inl (e, absent) ↦ elim (Bool-cases (leb max_records s.record_cnt)) [
      | inl big ↦
          let checked : check_set s none c ≡ some kv_err_full = unfold check_set in rw big in
          (
            kv_err_full,
            s,
            set_full s k val c none alloc e checked,
            full absent (ground (arith, v.fits)),
          )
      | inr room ↦ set_missing alloc fresh absent e room
    ]
    | inr (i, q, lt, e, d, has) ↦ elim (Bool-cases (same_ip_address c q.client_addr)) [
      | inl own ↦ set_present alloc i q fresh lt d has e own
      | inr foreign ↦
          let checked : check_set s (some i) c ≡ some kv_err_perm =
            rw (check-present s i q c d) (rw foreign) in
          (
            kv_err_perm,
            s,
            set_denied s k val c (some i) alloc e checked,
            denied i q lt d has foreign,
          )
    ]
  ]

-- The outcome of a set keeps the invariant.
pub SetOutcome-IsValid :
    (s : Store) (k val : List ℕ) (c : SockAddr) (alloc : Option ℕ) {st : KvStatus} {s' : Store}
    → SetOutcome s k c (new_record k (length k) val (length val) c) alloc st s'
    → IsValid s
    → IsValid s'
SetOutcome-IsValid s k val c alloc (full _ _) v = v
SetOutcome-IsValid s k val c alloc (denied _ _ _ _ _ _) v = v
SetOutcome-IsValid s k val c alloc (no_memory_add _ _ _) v = v
SetOutcome-IsValid s k val c alloc (no_memory_update _ _ _ _ _ _ _) v = v
SetOutcome-IsValid s k val c alloc (added p got fresh absent room) v =
    appended-IsValid s v p _ fresh (new_record-IsRecord k val c) room (λ j has i q lt d.
      subst (λ m. same_key m (length m) q ≡ false) (sym (key-new_record j k val c has))
        (absent i q lt d))
SetOutcome-IsValid s k val c alloc (updated p i old q got fresh lt at d has own) v =
    replaced-IsValid s v p _ fresh (new_record-IsRecord k val c) i old q lt at d
      (λ j hj. subst (λ m. HasKey m q) (sym (key-new_record j k val c hj)) has)
