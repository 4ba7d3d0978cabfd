-- ===== src/KvStore/Reads.antt =====
-- What a get shows after each of the changes that chapter_59/kv_store.c makes.
use native.Mathlib.Decide.{ℕ_discrete}
use tlpi_solutions.Common.{
  ℕ, ◌-◌, ◌<◌, ◌≡◌, ◌≢◌, inl, inr, subst, sym, ap, ◌∙◌, none, some, List, arith, length, get_elem?,
  true, false, Bool-cases, bytes_eq, bytes_eq_sound, bytes_eq_refl, if◌then◌else◌,
}
use tlpi_solutions.KvStore.{KvRecord, SockAddr, Store, deref, same_key, new_record, max_records}
use tlpi_solutions.KvStore.Keys.{HasKey, HasKey-injective, same_key-new_record}
use tlpi_solutions.KvStore.Validity.{IsValid}
use tlpi_solutions.KvStore.Effects.{
  appended, replaced, removed, deref-appended_new, deref-appended_old, deref-replaced_new,
  deref-replaced_old,
}
use tlpi_solutions.KvStore.Preserve.{deref-removed, source, removed-IsValid}
use tlpi_solutions.KvStore.Sets.{IsAbsent}
use tlpi_solutions.KvStore.Fetch.{fetch, fetch_found, fetch_missing, fetch_same}

-- A record of another key is not the record of `k`.
apart : (j k : List ℕ) (q : KvRecord) → bytes_eq j k ≡ false → HasKey j q → ¬ HasKey k q
apart j k q ne hj hk =
    let same : bytes_eq j k ≡ true = rw (HasKey-injective j k q hj hk) (bytes_eq_refl k) in cc

not_new :
    (j k val : List ℕ) (c : SockAddr)
    → bytes_eq j k ≡ false
    → ¬ HasKey j (new_record k (length k) val (length val) c)
not_new j k val c ne h = let e : bytes_eq j k ≡ true = sym (same_key-new_record j k val c) ∙ h in cc

module _ (s : Store) (v : IsValid s) (p : ℕ) (k val : List ℕ) (c : SockAddr)
    (fresh : s.heap p ≡ none) where
  abbrev r : KvRecord
  r = new_record k (length k) val (length val) c

  pub fetch-appended :
      (j : List ℕ)
      → s.record_cnt < max_records
      → IsValid (appended s p r)
      → fetch (appended s p r) j ≡ (if bytes_eq j k then some (some r) else fetch s j)
  fetch-appended j room v' = elim (Bool-cases (bytes_eq j k)) [
    | inl same ↦ rw same (
        fetch_found (appended s p r) v' j s.record_cnt r (omega arith)
          (deref-appended_new s v p r fresh room) (same_key-new_record j k val c ∙ same))
    | inr other ↦ rw other (
        fetch_same s (appended s p r) v v' j
          (λ i x lt d has. (i, omega arith, deref-appended_old s v p r fresh i lt ∙ d))
          (λ m x lt d has. elim (ℕ_discrete m s.record_cnt) [
            | yes e ↦
                let hr : HasKey j r = cc (deref-appended_new s v p r fresh room) in
                absurd (not_new j k val c other hr)
            | no ne ↦ (m, omega arith, sym (deref-appended_old s v p r fresh m (omega arith)) ∙ d)
          ]))
  ]

  pub fetch-replaced :
      (i old : ℕ) (q : KvRecord) (j : List ℕ)
      → i < s.record_cnt
      → get_elem? s.records i ≡ some old
      → deref s i ≡ some q
      → HasKey k q
      → IsValid (replaced s i old p r)
      → fetch (replaced s i old p r) j ≡ (if bytes_eq j k then some (some r) else fetch s j)
  fetch-replaced i old q j lt at was hask v' = elim (Bool-cases (bytes_eq j k)) [
    | inl same ↦ rw same (
        fetch_found (replaced s i old p r) v' j i r lt
          (deref-replaced_new s v p r fresh i old lt at) (same_key-new_record j k val c ∙ same))
    | inr other ↦ rw other (
        fetch_same s (replaced s i old p r) v v' j
          (λ m x lm d has. elim (ℕ_discrete i m) [
            | yes e ↦ let hq : HasKey j q = cc in absurd (apart j k q other hq hask)
            | no ne ↦ (m, lm, deref-replaced_old s v p r fresh i old lt at m lm ne ∙ d)
          ])
          (λ m x lm d has. elim (ℕ_discrete i m) [
            | yes e ↦
                let hr : HasKey j r = cc (deref-replaced_new s v p r fresh i old lt at) in
                absurd (not_new j k val c other hr)
            | no ne ↦ (m, lm, sym (deref-replaced_old s v p r fresh i old lt at m lm ne) ∙ d)
          ]))
  ]

module _ (s : Store) (v : IsValid s) (i existing last : ℕ) (q : KvRecord) (k : List ℕ)
    (lt : i < s.record_cnt) (at : get_elem? s.records i ≡ some existing)
    (end : get_elem? s.records (s.record_cnt - 1) ≡ some last) (was : deref s i ≡ some q)
    (hask : HasKey k q) where
  -- After the removal, no live record has the removed key.
  IsAbsent-removed : (j : List ℕ) → bytes_eq j k ≡ true → IsAbsent (removed s i existing last) j
  IsAbsent-removed j same m x lm d = elim (Bool-cases (same_key j (length j) x)) [
    | inr other ↦ other
    | inl has ↦
        let hj : HasKey j q = subst (λ n. HasKey n q) (sym (bytes_eq_sound j k same)) hask in
        let e : i ≡ source s i m =
          v.unique i (source s i m) q x j lt (ground arith) was
            (sym (deref-removed s v i existing last lt at end m lm) ∙ d) hj has in
        absurd (ground arith)
  ]

  forth :
      (j : List ℕ)
      → bytes_eq j k ≡ false
      → (m : ℕ) (x : KvRecord) → m < s.record_cnt
      → deref s m ≡ some x
      → HasKey j x
      → (n : ℕ) × (n < s.record_cnt - 1) × (deref (removed s i existing last) n ≡ some x)
  forth j other m x lm d has =
      let ne : i ≢ m = λ e. (let hq : HasKey j q = cc in absurd (apart j k q other hq hask)) in
      elim (ℕ_discrete m (s.record_cnt - 1)) [
        | yes tail ↦
            let here : source s i i ≡ m = ground arith in
            (
              i,
              omega arith,
              deref-removed s v i existing last lt at end i (omega arith) ∙ ap (deref s) here ∙ d,
            )
        | no inner ↦
            let here : source s i m ≡ m = ground arith in
            (
              m,
              omega arith,
              deref-removed s v i existing last lt at end m (omega arith) ∙ ap (deref s) here ∙ d,
            )
      ]

  back :
      (j : List ℕ) (m : ℕ) (x : KvRecord)
      → m < s.record_cnt - 1
      → deref (removed s i existing last) m ≡ some x
      → HasKey j x
      → (n : ℕ) × (n < s.record_cnt) × (deref s n ≡ some x)
  back j m x lm d has =
      (source s i m, ground arith, sym (deref-removed s v i existing last lt at end m lm) ∙ d)

  pub fetch-removed :
      (j : List ℕ)
      → fetch (removed s i existing last) j ≡ (if bytes_eq j k then some none else fetch s j)
  fetch-removed j =
      let v' : IsValid (removed s i existing last) =
        removed-IsValid s v i existing last lt at end in
      elim (Bool-cases (bytes_eq j k)) [
        | inl same ↦
            rw same (fetch_missing (removed s i existing last) v' j (IsAbsent-removed j same))
        | inr other ↦
            rw other (fetch_same s (removed s i existing last) v v' j (forth j other) (back j))
      ]
