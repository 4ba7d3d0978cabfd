-- ===== src/KvStore/Preserve.antt =====
-- The invariant of chapter_59/kv_store.c through each way in which the store changes.
use native.Mathlib.Decide.{ℕ_discrete}
use tlpi_solutions.Common.{
  ℕ, ◌+◌, ◌-◌, ◌<◌, ◌≡◌, ◌≢◌, sym, ap, ◌∙◌, none, some, List, arith, length, get_elem?, length-set,
  get_elem?-set_self, get_elem?-set_ne, true, false, ◌==◌, if◌then◌else◌,
}
use tlpi_solutions.KvStore.{KvRecord, Store, deref, max_records, same_key}
use tlpi_solutions.KvStore.Keys.{HasKey, IsRecord}
use tlpi_solutions.KvStore.Validity.{IsValid}
use tlpi_solutions.KvStore.Effects.{
  appended, replaced, removed, deref-appended_new, deref-appended_old, deref-replaced_new,
  deref-replaced_old, deref-removed_old, deref-removed_moved,
}

-- No live record has a key of `r`.
abbrev pub IsNew : Store → KvRecord → Type 0
IsNew s r =
    (k : List ℕ)
    → HasKey k r
    → (j : ℕ) (q : KvRecord) → j < s.record_cnt
    → deref s j ≡ some q
    → same_key k (length k) q ≡ false

module _ (s : Store) (v : IsValid s) (p : ℕ) (r : KvRecord) (fresh : s.heap p ≡ none)
    (w : IsRecord r) where
  module _ (room : s.record_cnt < max_records) (new : IsNew s r) where
    -- A key of the appended record is in no other slot.
    only_new :
        (j : ℕ) (x q : KvRecord) (k : List ℕ)
        → j < s.record_cnt
        → deref (appended s p r) s.record_cnt ≡ some x
        → deref (appended s p r) j ≡ some q
        → HasKey k x
        → ¬ HasKey k q
    only_new j x q k lt dx dq hx hq =
        let h : HasKey k r = cc (deref-appended_new s v p r fresh room) in
        let d : deref s j ≡ some q = sym (deref-appended_old s v p r fresh j lt) ∙ dq in
        let no_key : same_key k (length k) q ≡ false = new k h j q lt d in cc

    held-appended :
        (i : ℕ)
        → i < s.record_cnt + 1
        → (x : KvRecord) × (deref (appended s p r) i ≡ some x) × IsRecord x
    held-appended i lt = elim (ℕ_discrete i s.record_cnt) [
      | yes e ↦ (r, rw e (deref-appended_new s v p r fresh room), w)
      | no ne ↦
          let (x, d, wx) = v.held i (omega arith) in
          (x, deref-appended_old s v p r fresh i (omega arith) ∙ d, wx)
    ]

    unique-appended :
        (i j : ℕ) (x q : KvRecord) (k : List ℕ)
        → i < s.record_cnt + 1
        → j < s.record_cnt + 1
        → deref (appended s p r) i ≡ some x
        → deref (appended s p r) j ≡ some q
        → HasKey k x
        → HasKey k q
        → i ≡ j
    unique-appended i j x q k li lj dx dq hx hq = elim (ℕ_discrete i s.record_cnt) [
      | yes ei ↦ elim (ℕ_discrete j s.record_cnt) [
        | yes ej ↦ omega arith
        | no nj ↦ absurd (only_new j x q k (omega arith) (cc) dq hx hq)
      ]
      | no ni ↦ elim (ℕ_discrete j s.record_cnt) [
        | yes ej ↦ absurd (only_new i q x k (omega arith) (cc) dx hq hx)
        | no nj ↦
            v.unique i j x q k (omega arith) (omega arith)
              (sym (deref-appended_old s v p r fresh i (omega arith)) ∙ dx)
              (sym (deref-appended_old s v p r fresh j (omega arith)) ∙ dq) hx hq
      ]
    ]

    owned-appended :
        (a : ℕ) (x : KvRecord)
        → (appended s p r).heap a ≡ some x
        → (i : ℕ) × (i < s.record_cnt + 1) × (get_elem? (appended s p r).records i ≡ some a)
    owned-appended a x h = elim (ℕ_discrete p a) [
      | yes e ↦ (
        s.record_cnt,
        omega arith,
        get_elem?-set_self s.records s.record_cnt p (omega (arith, v.slots)) ∙ ap some e,
      )
      | no ne ↦
          let (i, lt, at) = v.owned a x (ground arith) in
          (i, omega arith, get_elem?-set_ne s.records p (omega arith) ∙ at)
    ]

    pub appended-IsValid : IsValid (appended s p r)
    appended-IsValid = record {
      slots = length-set s.records s.record_cnt p ∙ v.slots;
      fits = omega arith;
      held = held-appended;
      unique = unique-appended;
      owned = owned-appended;
    }

  module _ (i old : ℕ) (q : KvRecord) (live : i < s.record_cnt)
      (at : get_elem? s.records i ≡ some old) (was : deref s i ≡ some q)
      (same : (k : List ℕ) → HasKey k r → HasKey k q) where
    -- A key that a slot has after the change, it had before.
    origin-replaced :
        (j : ℕ) (x : KvRecord) (k : List ℕ)
        → j < s.record_cnt
        → deref (replaced s i old p r) j ≡ some x
        → HasKey k x
        → (y : KvRecord) × (deref s j ≡ some y) × HasKey k y
    origin-replaced j x k lt d h = elim (ℕ_discrete i j) [
      | yes e ↦
          let hr : HasKey k r = cc (deref-replaced_new s v p r fresh i old live at) in
          (q, cc, same k hr)
      | no ne ↦ (x, sym (deref-replaced_old s v p r fresh i old live at j lt ne) ∙ d, h)
    ]

    held-replaced :
        (j : ℕ)
        → j < s.record_cnt
        → (x : KvRecord) × (deref (replaced s i old p r) j ≡ some x) × IsRecord x
    held-replaced j lt = elim (ℕ_discrete i j) [
      | yes e ↦ (r, rw (← e) (deref-replaced_new s v p r fresh i old live at), w)
      | no ne ↦
          let (x, d, wx) = v.held j lt in
          (x, deref-replaced_old s v p r fresh i old live at j lt ne ∙ d, wx)
    ]

    owned-replaced :
        (a : ℕ) (x : KvRecord)
        → (replaced s i old p r).heap a ≡ some x
        → (j : ℕ) × (j < s.record_cnt) × (get_elem? (replaced s i old p r).records j ≡ some a)
    owned-replaced a x h = elim (ℕ_discrete p a) [
      | yes e ↦
          (i, live, get_elem?-set_self s.records i p (omega (arith, v.slots, v.fits)) ∙ ap some e)
      | no ne ↦
          let kept : old ≢ a = ground arith in
          let (j, lt, e) = v.owned a x (ground arith) in
          let apart : i ≢ j = λ same_slot. kept (ground arith) in
          (j, lt, get_elem?-set_ne s.records p apart ∙ e)
    ]

    pub replaced-IsValid : IsValid (replaced s i old p r)
    replaced-IsValid = record {
      slots = length-set s.records i p ∙ v.slots;
      fits = v.fits;
      held = held-replaced;
      unique = λ m n x z k lm ln dx dz hx hz.
          let (x', dx', hx') = origin-replaced m x k lm dx hx in
          let (z', dz', hz') = origin-replaced n z k ln dz hz in
          v.unique m n x' z' k lm ln dx' dz' hx' hz';
      owned = owned-replaced;
    }

-- Where the record of slot `j` stood before the removal of slot `i`.
abbrev pub source : Store → ℕ → ℕ → ℕ
source s i j = if i == j then s.record_cnt - 1 else j

module _ (s : Store) (v : IsValid s) (i existing last : ℕ) (live : i < s.record_cnt)
    (at : get_elem? s.records i ≡ some existing)
    (end : get_elem? s.records (s.record_cnt - 1) ≡ some last) where
  pub deref-removed :
      (j : ℕ) → j < s.record_cnt - 1 → deref (removed s i existing last) j ≡ deref s (source s i j)
  deref-removed j lt = elim (ℕ_discrete i j) [
    | yes e ↦
        let here : (i == j) ≡ true = ground arith in
        rw here (rw (← e) (deref-removed_moved s v i existing last live at end (omega arith)))
    | no ne ↦
        let there : (i == j) ≡ false = ground arith in
        rw there (deref-removed_old s v i existing last live at end j lt ne)
  ]

  source-lt : (j : ℕ) → j < s.record_cnt - 1 → source s i j < s.record_cnt
  source-lt j lt = ground arith

  owned-removed :
      (a : ℕ) (x : KvRecord)
      → (removed s i existing last).heap a ≡ some x
      → (j : ℕ) × (j < s.record_cnt - 1)
        × (get_elem? (removed s i existing last).records j ≡ some a)
  owned-removed a x h =
      let kept : existing ≢ a = ground arith in
      let (j, lt, e) = v.owned a x (ground arith) in
      let apart : i ≢ j = λ same_slot. kept (ground arith) in
      elim (ℕ_discrete j (s.record_cnt - 1)) [
        | yes tail ↦
            (i, omega arith, ground (arith, get_elem?-set_self s.records i last, v.slots, v.fits))
        | no inner ↦
            (j, omega arith, ground (arith, get_elem?-set_ne s.records {i = i} {j = j} last apart))
      ]

  pub removed-IsValid : IsValid (removed s i existing last)
  removed-IsValid = record {
    slots = ground (arith, length-set s.records i last, v.slots);
    fits = omega (arith, v.fits);
    held = λ j lt.
        let (x, d, wx) = v.held (source s i j) (source-lt j lt) in (x, deref-removed j lt ∙ d, wx);
    unique = λ m n x z k lm ln dx dz hx hz.
        let e : source s i m ≡ source s i n =
          v.unique (source s i m) (source s i n) x z k (source-lt m lm) (source-lt n ln)
            (sym (deref-removed m lm) ∙ dx) (sym (deref-removed n ln) ∙ dz) hx hz in
        ground arith;
    owned = owned-removed;
  }
