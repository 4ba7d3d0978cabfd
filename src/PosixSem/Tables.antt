-- ===== src/PosixSem/Tables.antt =====
-- Tables of System V objects, in chapter_53/posix_sem.c found by key and by id.
use mathlib.Core.Path.{fun_ext, ap₂}
use tlpi_solutions.Common.{
  ℕ, ◌≡◌, refl, sym, ap, ◌∙◌, Bool, true, false, Option, none, some, ◌==◌, if◌then◌else◌, arith,
  Bool-cases, inl, inr,
}
use tlpi_solutions.PosixSem.{Object, Table, create, put, remove}

abbrev pub is_some {ℓ} : {A : Type ℓ} → Option A → Bool
is_some none = false
is_some (some a) = true

pub some_injective {ℓ} : {A : Type ℓ} {a b : A} → some a ≡ some b → a ≡ b
some_injective e = cc

pub is_some-none {ℓ} : {A : Type ℓ} {o : Option A} → is_some o ≡ false → o ≡ none
is_some-none {o = none} e = refl
is_some-none {o = some a} e = absurd (cc)

-- Keys name objects that have them, and objects are found under their keys.
pub record IsTable {A : Type 0} (t : Table A) : Type 0 where
  pub found :
      (key i : ℕ) → t.ids key ≡ some i → (o : Object A) × (t.object i ≡ some o) × (o.key ≡ key)
  pub named : (i : ℕ) (o : Object A) → t.object i ≡ some o → t.ids o.key ≡ some i

module _ {A : Type 0} (t : Table A) where
  pub put-object :
      (i j : ℕ) (o : Object A) (c : A)
      → t.object i ≡ some o
      → (put t i c).object j
        ≡ (if j == i then some (record { key = o.key; content = c }) else t.object j)
  unfolding put
  put-object i j o c e = ground arith

  pub put-ids : (i key : ℕ) (c : A) → (put t i c).ids key ≡ t.ids key
  unfolding put
  put-ids i key c = ground arith

  pub remove-object : (i j : ℕ) → (remove t i).object j ≡ (if j == i then none else t.object j)
  unfolding remove
  remove-object i j = ground arith

  pub remove-ids :
      (i key : ℕ) (o : Object A)
      → t.object i ≡ some o
      → (remove t i).ids key ≡ (if key == o.key then none else t.ids key)
  unfolding remove
  remove-ids i key o e = ground arith

  pub create-object :
      (key i j : ℕ) (c : A)
      → (create t key i c).object j
        ≡ (if j == i then some (record { key = key; content = c }) else t.object j)
  unfolding create
  create-object key i j c = refl

  pub create-ids :
      (key i k : ℕ) (c : A) → (create t key i c).ids k ≡ (if k == key then some i else t.ids k)
  unfolding create
  create-ids key i k c = refl

  module _ (w : IsTable t) where
    -- Two keys of one object are equal, and so are two objects of one key.
    pub same_key :
        (i : ℕ) (o : Object A) (key : ℕ) → t.object i ≡ some o → t.ids key ≡ some i → o.key ≡ key
    same_key i o key e h = let (o', e', k') = w.found key i h in cc

    pub same_id :
        (i j : ℕ) (o q : Object A)
        → t.object i ≡ some o
        → t.object j ≡ some q
        → o.key ≡ q.key
        → i ≡ j
    same_id i j o q e h k =
        let a : t.ids o.key ≡ some i = w.named i o e in
        let b : t.ids q.key ≡ some j = w.named j q h in cc

    pub put-IsTable : (i : ℕ) (o : Object A) (c : A) → t.object i ≡ some o → IsTable (put t i c)
    put-IsTable i o c e = record {
      found = λ key j h.
          (let (q, at, k) = w.found key j (sym (put-ids i key c) ∙ h) in
            elim (Bool-cases (j == i)) [
              | inl hit ↦ (
                record { key = o.key; content = c },
                put-object i j o c e ∙ rw hit refl,
                (let s : j ≡ i = ground arith in
                    let at_i : t.object i ≡ some q = rw (← s) at in cc),
              )
              | inr miss ↦ (q, put-object i j o c e ∙ rw miss at, k)
            ]);
      named = λ j q h. (elim (Bool-cases (j == i)) [
        | inl hit ↦
            let s : j ≡ i = ground arith in
            let now : some (record { key = o.key; content = c }) ≡ some q =
              rw hit at (sym (put-object i j o c e) ∙ h) in
            let k : q.key ≡ o.key = ap (λ x. x.key) (sym (some_injective now)) in
            put-ids i q.key c ∙ rw (k, s) (w.named i o e)
        | inr miss ↦ put-ids i q.key c ∙ w.named j q (rw miss at (sym (put-object i j o c e) ∙ h))
      ]);
    }

    pub create-IsTable :
        (key i : ℕ) (c : A) → t.ids key ≡ none → t.object i ≡ none → IsTable (create t key i c)
    unfolding create
    create-IsTable key i c new fresh = record {
      found = λ k j h. (elim (Bool-cases (k == key)) [
        | inl hit ↦
            let s : j ≡ i = (let a : some i ≡ some j = rw hit at h in cc) in
            let self : (j == i) ≡ true = ground arith in
            (record { key = key; content = c }, rw self refl, ground arith)
        | inr miss ↦
            let (q, at, e) = w.found k j (rw miss at h) in
            let other : (j == i) ≡ false = (elim (Bool-cases (j == i)) [
              | inr x ↦ x
              | inl x ↦
                  let s : j ≡ i = ground arith in
                  let at_i : t.object i ≡ some q = rw (← s) at in absurd (cc)
            ]) in
            (q, rw other at, e)
      ]);
      named = λ j q h. (elim (Bool-cases (j == i)) [
        | inl hit ↦
            let s : j ≡ i = ground arith in
            let now : some (record { key = key; content = c }) ≡ some q = rw hit at h in
            let k : (q.key == key) ≡ true = rw (← some_injective now) (ground arith) in
            rw (k, s) refl
        | inr miss ↦
            let there : t.ids q.key ≡ some j = w.named j q (rw miss at h) in
            let other : (q.key == key) ≡ false = (elim (Bool-cases (q.key == key)) [
              | inr x ↦ x
              | inl x ↦
                  let s : q.key ≡ key = ground arith in
                  let at_k : t.ids key ≡ some j = rw (← s) there in absurd (cc)
            ]) in
            rw other there
      ]);
    }

    pub remove-IsTable : (i : ℕ) (o : Object A) → t.object i ≡ some o → IsTable (remove t i)
    remove-IsTable i o e = record {
      found = λ key j h. (elim (Bool-cases (key == o.key)) [
        | inl hit ↦
            (let no : none ≡ some j = rw hit at (sym (remove-ids i key o e) ∙ h) in absurd (cc))
        | inr miss ↦
            let (q, at, k) = w.found key j (rw miss at (sym (remove-ids i key o e) ∙ h)) in
            let other : (j == i) ≡ false = (elim (Bool-cases (j == i)) [
              | inr x ↦ x
              | inl x ↦
                  let s : j ≡ i = ground arith in
                  let at_i : t.object i ≡ some q = rw (← s) at in
                  let same : o ≡ q = some_injective (sym e ∙ at_i) in
                  let k' : o.key ≡ key = rw same k in absurd (ground arith)
            ]) in
            (q, remove-object i j ∙ rw other at, k)
      ]);
      named = λ j q h. (elim (Bool-cases (j == i)) [
        | inl hit ↦
            (let no : none ≡ some q = rw hit at (sym (remove-object i j) ∙ h) in absurd (cc))
        | inr miss ↦
            let at : t.object j ≡ some q = rw miss at (sym (remove-object i j) ∙ h) in
            let other : (q.key == o.key) ≡ false = (elim (Bool-cases (q.key == o.key)) [
              | inr x ↦ x
              | inl x ↦ let s : j ≡ i = same_id j i q o at e (ground arith) in absurd (ground arith)
            ]) in
            remove-ids i q.key o e ∙ rw other (w.named j q at)
      ]);
    }

module _ {A : Type 0} (t : Table A) (key i : ℕ) where
  pub put-create : (c d : A) → put (create t key i c) i d ≡ create t key i d
  unfolding put create
  put-create c d =
      let self : (i == i) ≡ true = ground arith in
      rw (self, put)
        (ap (λ f. record { ids = λ k. if k == key then some i else t.ids k; object = f })
          (fun_ext λ j. ground arith))

  pub remove-create :
      (c : A) → t.ids key ≡ none → t.object i ≡ none → remove (create t key i c) i ≡ t
  unfolding remove create
  remove-create c new fresh =
      let self : (i == i) ≡ true = ground arith in
      rw (self, remove)
        (ap₂ (λ f g. let x : Table A = record { ids = f; object = g } in x)
          (fun_ext λ k. ground arith) (fun_ext λ j. ground arith))
