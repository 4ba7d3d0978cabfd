-- ===== src/KvStore/Effects.antt =====
-- The three ways in which chapter_59/kv_store.c changes the store, slot by slot: a record
-- appended, a record replaced, and a record removed with the last one moved into its slot.
use tlpi_solutions.Common.{
  ℕ, ◌+◌, ◌-◌, ◌<◌, ◌≡◌, ◌≢◌, sym, ◌∙◌, none, some, arith, get_elem?, set, ◌==◌, not,
  get_elem?-set_self, get_elem?-set_ne, if◌then◌else◌, ◌>>=◌, take,
}
use tlpi_solutions.KvStore.{KvRecord, Store, deref, update, max_records}
use tlpi_solutions.KvStore.Keys.{own_key}
use tlpi_solutions.KvStore.Validity.{IsValid}

abbrev pub appended : Store → ℕ → KvRecord → Store
appended s p r = record s {
  records = set s.records s.record_cnt p;
  record_cnt = s.record_cnt + 1;
  heap = update s.heap p (some r);
}

abbrev pub replaced : Store → ℕ → ℕ → ℕ → KvRecord → Store
replaced s i old p r = record s {
  records = set s.records i p;
  heap = update (update s.heap p (some r)) old none;
}

abbrev pub removed : Store → ℕ → ℕ → ℕ → Store
removed s i existing last = record s {
  records = if not (i == s.record_cnt - 1) then set s.records i last else s.records;
  record_cnt = s.record_cnt - 1;
  heap = update s.heap existing none;
}

-- A record in a slot stands at an allocated address.
pub deref-inv :
    (s : Store) (i : ℕ) {r : KvRecord}
    → deref s i ≡ some r
    → (p : ℕ) × (get_elem? s.records i ≡ some p) × (s.heap p ≡ some r)
unfolding deref
deref-inv s i h = ground arith

pub deref-at : (s : Store) (i p : ℕ) → get_elem? s.records i ≡ some p → deref s i ≡ s.heap p
unfolding deref
deref-at s i p e = rw (e, ◌>>=◌)

module _ (s : Store) (v : IsValid s) where
  -- Every live slot holds a pointer to a record.
  pub slot :
      (i : ℕ)
      → i < s.record_cnt
      → (p : ℕ) × (r : KvRecord) × (get_elem? s.records i ≡ some p) × (s.heap p ≡ some r)
  slot i lt = let (r, e, w) = v.held i lt in let (p, at, here) = deref-inv s i e in (p, r, at, here)

  -- Two live slots hold different pointers.
  pub slot-injective :
      (i j p : ℕ)
      → i < s.record_cnt
      → j < s.record_cnt
      → get_elem? s.records i ≡ some p
      → get_elem? s.records j ≡ some p
      → i ≡ j
  slot-injective i j p li lj ei ej =
      let (r, e, w) = v.held i li in
      let d : deref s j ≡ some r = deref-at s j p ej ∙ sym (deref-at s i p ei) ∙ e in
      v.unique i j r r (take r.key_len r.content) li lj e d (own_key r w) (own_key r w)

module _ (s : Store) (v : IsValid s) (p : ℕ) (r : KvRecord) (fresh : s.heap p ≡ none) where
  fresh_ne : (i q : ℕ) → i < s.record_cnt → get_elem? s.records i ≡ some q → p ≢ q
  fresh_ne i q lt e same = let (q', x, e', here) = slot s v i lt in ground arith

  pub deref-appended_new : s.record_cnt < max_records → deref (appended s p r) s.record_cnt ≡ some r
  unfolding deref
  deref-appended_new room = ground (arith, get_elem?-set_self s.records s.record_cnt p, v.slots)

  pub deref-appended_old : (i : ℕ) → i < s.record_cnt → deref (appended s p r) i ≡ deref s i
  unfolding deref
  deref-appended_old i lt =
      let (q, x, e, here) = slot s v i lt in
      let old : get_elem? (set s.records s.record_cnt p) i ≡ some q =
        get_elem?-set_ne s.records p (omega arith) ∙ e in
      ground (arith, fresh_ne i q lt e)

  module _ (i old : ℕ) (live : i < s.record_cnt) (at : get_elem? s.records i ≡ some old) where
    pub deref-replaced_new : deref (replaced s i old p r) i ≡ some r
    unfolding deref
    deref-replaced_new =
        ground (arith, get_elem?-set_self s.records i p, v.slots, v.fits, fresh_ne i old live at)

    pub deref-replaced_old :
        (j : ℕ) → j < s.record_cnt → i ≢ j → deref (replaced s i old p r) j ≡ deref s j
    unfolding deref
    deref-replaced_old j lt ne =
        let (q, x, e, here) = slot s v j lt in
        let kept : get_elem? (set s.records i p) j ≡ some q = get_elem?-set_ne s.records p ne ∙ e in
        let apart : old ≢ q = λ same. ne (slot-injective s v i j q live lt (ground arith) e) in
        ground (arith, fresh_ne j q lt e)

module _ (s : Store) (v : IsValid s) (i existing last : ℕ) (live : i < s.record_cnt)
    (at : get_elem? s.records i ≡ some existing)
    (end : get_elem? s.records (s.record_cnt - 1) ≡ some last) where
  pub deref-removed_old :
      (j : ℕ) → j < s.record_cnt - 1 → i ≢ j → deref (removed s i existing last) j ≡ deref s j
  unfolding deref
  deref-removed_old j lt ne =
      let (q, x, e, here) = slot s v j (omega arith) in
      let kept : get_elem? (set s.records i last) j ≡ some q =
        get_elem?-set_ne s.records last ne ∙ e in
      let apart : existing ≢ q =
        λ same. ne (slot-injective s v i j q live (omega arith) (ground arith) e) in
      ground arith

  pub deref-removed_moved :
      i < s.record_cnt - 1 → deref (removed s i existing last) i ≡ deref s (s.record_cnt - 1)
  unfolding deref
  deref-removed_moved lt =
      let (q, x, e, here) = slot s v (s.record_cnt - 1) (omega arith) in
      let moved : get_elem? (set s.records i last) i ≡ some last =
        get_elem?-set_self s.records i last (omega (arith, v.slots, v.fits)) in
      let apart : existing ≢ last = λ same. absurd (
        omega (
          arith,
          slot-injective s v i (s.record_cnt - 1) last live (omega arith) (ground arith) end,
        )) in
      ground arith
