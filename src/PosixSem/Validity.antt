-- ===== src/PosixSem/Validity.antt =====
-- The invariant of chapter_53/posix_sem.c: what the open handles of all processes can rely on.
use tlpi_solutions.Common.{
  ℕ, ◌+◌, ◌≤◌, ◌<◌, ◌≡◌, refl, sym, ap, ◌∙◌, false, none, some, List, [], ◌∷◌, ◌==◌, if◌then◌else◌,
  arith, Bool-cases, inl, inr,
}
use tlpi_solutions.PosixSem.{Object, Metadata, PosixSem, Kernel, sem_magic, put, remove}
use tlpi_solutions.PosixSem.Tables.{
  IsTable, is_some, same_id, put-object, put-ids, put-IsTable, remove-object, remove-ids,
  remove-IsTable, some_injective,
}

-- How many handles refer to the segment `m`.
unfoldable pub uses : ℕ → List PosixSem → ℕ
uses m [] = 0
uses m (h ∷ hs) = if h.shmid == m then uses m hs + 1 else uses m hs

-- The segment of a handle is there, and its key leads to the handle's set.
abbrev pub IsLive : Kernel → PosixSem → Type 0
IsLive k h =
    (o : Object Metadata) × (k.shms.object h.shmid ≡ some o) × (k.sems.ids o.key ≡ some h.semid)

abbrev pub AllLive : Kernel → List PosixSem → Type 0
AllLive k [] = Unit {0}
AllLive k (h ∷ hs) = IsLive k h × AllLive k hs

-- A segment counts its handles at least, and at most `n`.
pub record IsCounted (n : ℕ) (hs : List PosixSem) (m : ℕ) (d : Metadata) : Type 0 where
  pub counted : uses m hs ≤ d.ref_count
  pub bounded : d.ref_count ≤ n
  pub magic : d.initialized ≡ sem_magic

-- `n` is a bound of the references.
pub record IsValid (n : ℕ) (k : Kernel) (hs : List PosixSem) : Type 0 where
  pub sems : IsTable k.sems
  pub shms : IsTable k.shms
  pub paired : (key : ℕ) → is_some (k.sems.ids key) ≡ is_some (k.shms.ids key)
  pub segments :
      (m : ℕ) (o : Object Metadata) → k.shms.object m ≡ some o → IsCounted n hs m o.content
  pub live : AllLive k hs

-- What a step of the tables has to leave of the segments for the handles to stay live.
pub AllLive-step :
    (k k' : Kernel) (hs : List PosixSem)
    → ((h : PosixSem) → IsLive k h → 0 < uses h.shmid hs → IsLive k' h)
    → AllLive k hs
    → AllLive k' hs
unfolding uses
AllLive-step k k' [] f w = tt
AllLive-step k k' (h ∷ hs) f w =
    (f h w.0 (ground arith), AllLive-step k k' hs (λ h' w' pos. f h' w' (ground arith)) w.1)

pub IsCounted-mono :
    (n n' : ℕ) (hs : List PosixSem) (m : ℕ) (d : Metadata)
    → n ≤ n'
    → IsCounted n hs m d
    → IsCounted n' hs m d
IsCounted-mono n n' hs m d le c = record {
  counted = c.counted;
  bounded = omega (arith, c.bounded);
  magic = c.magic;
}

pub IsValid-mono :
    (n n' : ℕ) (k : Kernel) (hs : List PosixSem) → n ≤ n' → IsValid n k hs → IsValid n' k hs
IsValid-mono n n' k hs le v = record {
  sems = v.sems;
  shms = v.shms;
  paired = v.paired;
  segments = λ m o e. IsCounted-mono n n' hs m o.content le (v.segments m o e);
  live = v.live;
}

module _ (n : ℕ) (k : Kernel) (hs : List PosixSem) (v : IsValid n k hs) where
  -- New metadata for a segment.
  pub put_metadata-IsValid :
      (n' : ℕ) (hs' : List PosixSem) (m : ℕ) (o : Object Metadata) (d : Metadata)
      → k.shms.object m ≡ some o
      → ((j : ℕ) (q : Object Metadata)
          → (j == m) ≡ false
          → k.shms.object j ≡ some q
          → IsCounted n' hs' j q.content)
      → IsCounted n' hs' m d
      → AllLive k hs'
      → IsValid n' (record k { shms = put k.shms m d }) hs'
  put_metadata-IsValid n' hs' m o d e others c live = record {
    sems = v.sems;
    shms = put-IsTable k.shms v.shms m o d e;
    paired = λ key. v.paired key ∙ ap is_some (sym (put-ids k.shms m key d));
    segments = λ j q h. (elim (Bool-cases (j == m)) [
      | inl hit ↦
          let now : some (record { key = o.key; content = d }) ≡ some q =
            rw hit at (sym (put-object k.shms m j o d e) ∙ h) in
          let s : j ≡ m = ground arith in rw (s, ← some_injective now) c
      | inr miss ↦ others j q miss (rw miss at (sym (put-object k.shms m j o d e) ∙ h))
    ]);
    live =
        AllLive-step k (record k { shms = put k.shms m d }) hs'
          (λ h w pos. (elim (Bool-cases (h.shmid == m)) [
            | inl hit ↦
                let (q, at, there) = w in
                let s : h.shmid ≡ m = ground arith in
                let same : o ≡ q = some_injective (sym e ∙ (rw s at at)) in
                (
                  record { key = o.key; content = d },
                  put-object k.shms m h.shmid o d e ∙ rw hit refl,
                  rw same there,
                )
            | inr miss ↦
                let (q, at, there) = w in (q, put-object k.shms m h.shmid o d e ∙ rw miss at, there)
          ]))
          live;
  }

  -- A new value of a set.
  pub put_value-IsValid :
      (i : ℕ) (o : Object ℕ) (x : ℕ)
      → k.sems.object i ≡ some o
      → IsValid n (record k { sems = put k.sems i x }) hs
  put_value-IsValid i o x e = record {
    sems = put-IsTable k.sems v.sems i o x e;
    shms = v.shms;
    paired = λ key. ap is_some (put-ids k.sems i key x) ∙ v.paired key;
    segments = v.segments;
    live =
        AllLive-step k (record k { sems = put k.sems i x }) hs
          (λ h w pos. (let (q, at, there) = w in (q, at, put-ids k.sems i q.key x ∙ there))) v.live;
  }

  -- The removal of a segment without handles, and of its set.
  pub removed-IsValid :
      (i m : ℕ) (o : Object Metadata)
      → k.shms.object m ≡ some o
      → k.sems.ids o.key ≡ some i
      → uses m hs ≡ 0
      → IsValid n (record { sems = remove k.sems i; shms = remove k.shms m }) hs
  removed-IsValid i m o e there none_left =
      let (s, at, same) = v.sems.found o.key i there in
      record {
        sems = remove-IsTable k.sems v.sems i s at;
        shms = remove-IsTable k.shms v.shms m o e;
        paired = λ key.
            (ap is_some (remove-ids k.sems i key s at)
              ∙ rw same (both key)
              ∙ ap is_some (sym (remove-ids k.shms m key o e)));
        segments = λ j q h. (elim (Bool-cases (j == m)) [
          | inl hit ↦
              (let no : none ≡ some q = rw hit at (sym (remove-object k.shms m j) ∙ h) in
                absurd (cc))
          | inr miss ↦ v.segments j q (rw miss at (sym (remove-object k.shms m j) ∙ h))
        ]);
        live =
            AllLive-step k (record { sems = remove k.sems i; shms = remove k.shms m }) hs
              (λ h w pos.
                (let (q, at', there') = w in
                  let apart : (h.shmid == m) ≡ false = elsewhere h pos in
                  let other : (q.key == o.key) ≡ false = (elim (Bool-cases (q.key == o.key)) [
                    | inr x ↦ x
                    | inl x ↦
                        let s' : h.shmid ≡ m =
                          same_id k.shms v.shms h.shmid m q o at' e (ground arith) in
                        absurd (ground arith)
                  ]) in
                  (
                    q,
                    remove-object k.shms m h.shmid ∙ rw apart at',
                    remove-ids k.sems i q.key s at ∙ rw (same, other) there',
                  )))
              v.live;
      }
    where
      elsewhere : (h : PosixSem) → 0 < uses h.shmid hs → (h.shmid == m) ≡ false
      elsewhere h pos = elim (Bool-cases (h.shmid == m)) [
        | inr x ↦ x
        | inl x ↦
            let s' : h.shmid ≡ m = ground arith in
            let zero_uses : uses h.shmid hs ≡ 0 = rw s' none_left in absurd (omega arith)
      ]

      both :
          (key : ℕ)
          → is_some (if key == o.key then none else k.sems.ids key)
            ≡ is_some (if key == o.key then none else k.shms.ids key)
      both key = elim (Bool-cases (key == o.key)) [
        | inl hit ↦ rw hit refl
        | inr miss ↦ rw miss (v.paired key)
      ]
