-- ===== src/KvStore/Start.antt =====
-- The store of chapter_59/kv_store.c when the server starts, and after kv_store_cleanup().
use tlpi_solutions.Common.{
  ℕ, zero, suc, ◌+◌, ◌<◌, ◌≤◌, ◌≡◌, ◌≢◌, refl, inl, inr, Option-cases, none, some, arith, length,
  get_elem?, replicate, length-replicate, ◌>>=◌,
}
use tlpi_solutions.KvStore.{
  KvRecord, Store, Heap, max_records, update, free, free_records, kv_store_cleanup,
}
use tlpi_solutions.KvStore.Dict
use tlpi_solutions.KvStore.Validity.{IsValid}
use tlpi_solutions.KvStore.Effects.{slot, slot-injective}
use tlpi_solutions.KvStore.Fetch.{fetch_missing}
use tlpi_solutions.KvStore.Contract.{Represents}

-- The static variables before the first call: no records, and nothing allocated.
abbrev pub initial : Store
initial = record { records = replicate max_records 0; record_cnt = 0; heap = λ p. none }

-- A store with no records represents the empty map.
pub empty-IsValid :
    (s : Store)
    → length s.records ≡ max_records
    → s.record_cnt ≡ 0
    → ((p : ℕ) → s.heap p ≡ none)
    → IsValid s
empty-IsValid s slots e free_all = record {
  slots = slots;
  fits = omega arith;
  held = λ i lt. absurd (omega arith);
  unique = λ i j r q k li lj. absurd (omega arith);
  owned = λ p r h. (let h' : s.heap p ≡ none = free_all p in absurd (cc));
}

pub empty-Represents : (s : Store) → IsValid s → s.record_cnt ≡ 0 → Represents s Dict.empty
empty-Represents s v e = record {
  shows = λ j. fetch_missing s v j (λ i q lt. absurd (omega arith));
  counts = e;
}

pub initial-IsValid : IsValid initial
initial-IsValid = empty-IsValid initial (length-replicate {A = ℕ} max_records 0) refl (λ p. refl)

-- The state of the loop of kv_store_cleanup() before slot `i`, with `n` rounds left: the slots from
-- `i` on hold different allocated pointers, and nothing else is allocated.
record Remaining (n i : ℕ) (s : Store) : Type 0 where
  held :
      (j : ℕ)
      → i ≤ j
      → j < i + n
      → (p : ℕ) × (r : KvRecord) × (get_elem? s.records j ≡ some p) × (s.heap p ≡ some r)
  distinct :
      (j m p : ℕ)
      → j < i + n
      → m < i + n
      → get_elem? s.records j ≡ some p
      → get_elem? s.records m ≡ some p
      → j ≡ m
  owned :
      (p : ℕ) (r : KvRecord)
      → s.heap p ≡ some r
      → (j : ℕ) × (i ≤ j) × (j < i + n) × (get_elem? s.records j ≡ some p)

Remaining-next :
    (n i p : ℕ) (s : Store)
    → get_elem? s.records i ≡ some p
    → Remaining (suc n) i s
    → Remaining n (i + 1) (record s { heap = update s.heap p none })
Remaining-next n i p s at m = record {
  held = λ j lo hi.
      let (q, r, e, here) = m.held j (omega arith) (omega arith) in
      let ne : p ≢ q =
        λ same. absurd (omega (arith, m.distinct i j q (omega arith) (omega arith) (cc) e)) in
      (q, r, e, ground arith);
  distinct = λ j l q hj hl ej el. m.distinct j l q (omega arith) (omega arith) ej el;
  owned = λ q r h.
      let ne : p ≢ q = ground arith in
      let (j, lo, hi, e) = m.owned q r (ground arith) in
      let apart : i ≢ j = λ same. ne (ground arith) in (j, omega arith, omega arith, e);
}

free_records_lem :
    (n i : ℕ) (s : Store)
    → Remaining n i s
    → (h : Heap) × (free_records n i s ≡ some h) × ((p : ℕ) → h p ≡ none)
unfolding free_records
free_records_lem zero i s m = (
  s.heap,
  refl,
  λ p. elim (Option-cases (s.heap p)) [
    | inl e ↦ e
    | inr (r, e) ↦ let (j, lo, hi, at) = m.owned p r e in absurd (omega arith)
  ],
)
free_records_lem (suc n) i s m =
    let (p, r, at, here) = m.held i (omega arith) (omega arith) in
    let freed : free p s.heap ≡ some (update s.heap p none) = unfold free in rw (here, ◌>>=◌) in
    let (h, e, all) =
      free_records_lem n (i + 1) (record s { heap = update s.heap p none })
        (Remaining-next n i p s at m) in
    (h, rw (at, ◌>>=◌) (rw (freed, ◌>>=◌) e), all)

-- In a valid store kv_store_cleanup() comes back, without a double free, and leaves a valid store
-- that represents the empty map, with no memory allocated.
pub cleanup_empties :
    (s : Store)
    → IsValid s
    → (s' : Store) × (kv_store_cleanup s ≡ some s')
      × IsValid s'
      × Represents s' Dict.empty
      × ((p : ℕ) → s'.heap p ≡ none)
unfolding kv_store_cleanup
cleanup_empties s v =
    let (h, e, all) = free_records_lem s.record_cnt 0 s (record {
      held = λ j lo hi. slot s v j (omega arith);
      distinct = λ j m p hj hm ej em. slot-injective s v j m p (omega arith) (omega arith) ej em;
      owned = λ p r here. let (j, lt, at) = v.owned p r here in (j, omega arith, omega arith, at);
    }) in
    let s' : Store = record s { record_cnt = 0; heap = h } in
    let v' : IsValid s' = empty-IsValid s' v.slots refl all in
    (s', rw (e, ◌>>=◌), v', empty-Represents s' v' refl, all)
