-- ===== src/PosixSem/KeepsOpen.antt =====
-- sem_open() of chapter_53/posix_sem.c keeps the invariant.
use tlpi_solutions.Common.{
  ℕ, ◌+◌, ◌%◌, ◌<◌, ◌≡◌, refl, sym, ap, ◌∙◌, Bool, true, false, Option, none, some, List, ◌∷◌, ◌==◌,
  if◌then◌else◌, arith, ◌&&◌, Bool-cases, Option-cases, inl, inr, not, ltb,
}
use tlpi_solutions.PosixSem.{
  Metadata, PosixSem, Kernel, Result, err, enoent, sem_magic, sem_value_max, int_mod, create, put,
}
use tlpi_solutions.PosixSem.Tables.{is_some, create-IsTable, is_some-none, some_injective}
use tlpi_solutions.PosixSem.Validity.{
  uses, AllLive-step, IsCounted, IsValid, IsValid-mono, put_metadata-IsValid,
}
use tlpi_solutions.PosixSem.OpenCases.{FailsOr, referred, existing_cases, created_cases}
use tlpi_solutions.PosixSem.Name.{Files, name_to_key, check_name}
use tlpi_solutions.PosixSem.Open.{
  Flags, Grants, open_existing, open_created, open_missing, open_checked, sem_open, new_metadata,
}
use tlpi_solutions.PosixSem.Handles.{Result-cases, Opens, uses-fresh, finish-Opens}

module _ (n : ℕ) (k : Kernel) (hs : List PosixSem) (v : IsValid n k hs)
    (small : n + 1 < int_mod) where
  later : IsValid (n + 1) k hs
  later = IsValid-mono n (n + 1) k hs (omega arith) v

  -- A call that fails, or ends in a state with one more handle.
  ended-Opens :
      (r : Result PosixSem × Kernel) (g : Grants) (i m : ℕ) (name : List ℕ) (k' : Kernel)
      → FailsOr r k g i m name k'
      → IsValid (n + 1) k' (record { semid = i; shmid = m; name = name; ref_count = 1 } ∷ hs)
      → Opens (n + 1) hs r
  ended-Opens r g i m name k' (inl (e, failed)) v' = rw failed later
  ended-Opens r g i m name k' (inr done) v' = rw done (finish-Opens g i m name (n + 1) k' hs v')

  referred-IsCounted :
      (h : PosixSem) (d : Metadata)
      → IsCounted n hs h.shmid d
      → IsCounted (n + 1) (h ∷ hs) h.shmid (referred d)
  unfolding referred uses
  referred-IsCounted h d c =
      let no_wrap : (d.ref_count + 1) % int_mod ≡ d.ref_count + 1 = omega (arith, c.bounded) in
      let self : (h.shmid == h.shmid) ≡ true = ground arith in
      record {
        counted = rw (no_wrap, self) (omega (arith, c.counted));
        bounded = rw no_wrap (omega (arith, c.bounded));
        magic = c.magic;
      }

  -- The handle `h` is no use of another segment.
  elsewhere-IsCounted :
      (h : PosixSem) (j : ℕ) (d : Metadata)
      → (j == h.shmid) ≡ false
      → IsCounted n hs j d
      → IsCounted (n + 1) (h ∷ hs) j d
  unfolding uses
  elsewhere-IsCounted h j d miss c =
      let other_way : (h.shmid == j) ≡ false = ground arith in
      record {
        counted = rw other_way c.counted;
        bounded = omega (arith, c.bounded);
        magic = c.magic;
      }

  new-IsCounted :
      (h : PosixSem) (d : Metadata)
      → d.ref_count ≡ 1
      → d.initialized ≡ sem_magic
      → k.shms.object h.shmid ≡ none
      → IsCounted (n + 1) (h ∷ hs) h.shmid d
  unfolding uses
  new-IsCounted h d one magic fresh =
      let self : (h.shmid == h.shmid) ≡ true = ground arith in
      record {
        counted = rw (self, uses-fresh k h.shmid hs v.live fresh, one) (omega arith);
        bounded = rw one (omega arith);
        magic = magic;
      }

  existing-Opens :
      (g : Grants) (excl : Bool) (i m key : ℕ) (name : List ℕ)
      → k.sems.ids key ≡ some i
      → k.shms.ids key ≡ some m
      → Opens (n + 1) hs (open_existing g excl i m name k)
  existing-Opens g excl i m key name there shm =
      let (o, at, same) = v.shms.found key m shm in
      let h : PosixSem = record { semid = i; shmid = m; name = name; ref_count = 1 } in
      ended-Opens (open_existing g excl i m name k) g i m name
        (record k { shms = put k.shms m (referred o.content) })
        (existing_cases g excl i m name k o at)
        (put_metadata-IsValid n k hs v (n + 1) (h ∷ hs) m o (referred o.content) at
          (λ j q miss e. elsewhere-IsCounted h j q.content miss (v.segments j q e))
          (referred-IsCounted h o.content (v.segments m o at)) ((o, at, rw same there), v.live))

  -- A new set and a new segment under a free key.
  pair-IsValid :
      (key i m : ℕ) (name : List ℕ) (value : ℕ) (d : Metadata)
      → k.sems.ids key ≡ none
      → k.shms.ids key ≡ none
      → k.sems.object i ≡ none
      → k.shms.object m ≡ none
      → d.ref_count ≡ 1
      → d.initialized ≡ sem_magic
      → IsValid
          (n + 1)
          (record { sems = create k.sems key i value; shms = create k.shms key m d })
          (record { semid = i; shmid = m; name = name; ref_count = 1 } ∷ hs)
  unfolding create
  pair-IsValid key i m name value d new new_shm fresh fresh_shm one magic =
      let k' : Kernel = record { sems = create k.sems key i value; shms = create k.shms key m d } in
      let h : PosixSem = record { semid = i; shmid = m; name = name; ref_count = 1 } in
      let self : (key == key) ≡ true = ground arith in
      let self_m : (m == m) ≡ true = ground arith in
      record {
        sems = create-IsTable k.sems v.sems key i value new fresh;
        shms = create-IsTable k.shms v.shms key m d new_shm fresh_shm;
        paired = λ x. (elim (Bool-cases (x == key)) [
          | inl hit ↦ rw hit refl
          | inr miss ↦ rw miss (v.paired x)
        ]);
        segments = λ j q e. (elim (Bool-cases (j == m)) [
          | inl hit ↦
              let now : some (record { key = key; content = d }) ≡ some q = rw hit at e in
              let s : j ≡ m = ground arith in
              rw (s, ← some_injective now) (new-IsCounted h d one magic fresh_shm)
          | inr miss ↦ elsewhere-IsCounted h j q.content miss (v.segments j q (rw miss at e))
        ]);
        live = (
          (record { key = key; content = d }, rw self_m refl, rw self refl),
          AllLive-step k k' hs
              (λ h' w pos.
                (let (q, at, there) = w in
                  let apart : (h'.shmid == m) ≡ false = (elim (Bool-cases (h'.shmid == m)) [
                    | inr x ↦ x
                    | inl x ↦
                        let s : h'.shmid ≡ m = ground arith in
                        let at_m : k.shms.object m ≡ some q = rw s at at in absurd (cc)
                  ]) in
                  let other : (q.key == key) ≡ false = (elim (Bool-cases (q.key == key)) [
                    | inr x ↦ x
                    | inl x ↦
                        let s : q.key ≡ key = ground arith in
                        let at_key : k.sems.ids key ≡ some h'.semid = rw s at there in absurd (cc)
                  ]) in
                  (q, rw apart at, rw other there)))
              v.live,
        );
      }

  missing-Opens :
      (g : Grants) (f : Flags) (key i m : ℕ) (name : List ℕ)
      → k.sems.object i ≡ none
      → k.shms.object m ≡ none
      → Opens (n + 1) hs (open_missing g f key i m name k)
  unfolding open_missing
  missing-Opens g f key i m name fresh fresh_shm = elim (Bool-cases g.creates_sem) [
    | inr a ↦ rw a later
    | inl a ↦ elim (Option-cases (k.sems.ids key)) [
      | inl new ↦
          let new_shm : k.shms.ids key ≡ none =
            is_some-none (sym (v.paired key) ∙ ap is_some new) in
          rw (a, new)
            (ended-Opens (open_created g f key i m name (record k { sems = create k.sems key i 0 }))
              g i m name
              (record {
                sems = create k.sems key i f.value;
                shms = create k.shms key m (new_metadata f name);
              })
              (created_cases g f key i m name k new new_shm fresh fresh_shm)
              (pair-IsValid key i m name f.value (new_metadata f name) new new_shm fresh fresh_shm
                (unfold new_metadata in refl) (unfold new_metadata in refl)))
      | inr (there, at) ↦ elim (Bool-cases f.o_excl) [
        | inl excl ↦ rw (a, at, excl) later
        | inr shared ↦ elim (Option-cases (k.shms.ids key)) [
          | inl gone ↦ rw (a, at, shared, gone) later
          | inr (shm, at_shm) ↦
              rw (a, at, shared, at_shm) (existing-Opens g f.o_excl there shm key name at at_shm)
        ]
      ]
    ]
  ]

module _ (files : Files) (g : Grants) (i m n : ℕ) (meanwhile : Kernel → Kernel) (k : Kernel)
    (hs : List PosixSem) (v : IsValid n k hs) (v' : IsValid n (meanwhile k) hs)
    (small : n + 1 < int_mod) (fresh : (meanwhile k).sems.object i ≡ none)
    (fresh_shm : (meanwhile k).shms.object m ≡ none) where
  checked-Opens :
      (f : Flags) (name : List ℕ) → Opens (n + 1) hs (open_checked files g i m meanwhile f name k)
  unfolding open_checked
  checked-Opens f name =
      let key = name_to_key files name in
      let missing =
        if not f.o_creat then (err enoent, k) else open_missing g f key i m name (meanwhile k) in
      let stays : IsValid (n + 1) k hs = later n k hs v small in
      let absent : Opens (n + 1) hs missing = (elim (Bool-cases f.o_creat) [
        | inr a ↦ rw a stays
        | inl a ↦ rw a (missing-Opens n (meanwhile k) hs v' small g f key i m name fresh fresh_shm)
      ]) in
      elim (Bool-cases g.malloc) [
        | inr a ↦ rw a stays
        | inl a ↦ elim (Option-cases (k.sems.ids key)) [
          | inl e ↦ rw (a, e) absent
          | inr (there, e) ↦ elim (Option-cases (k.shms.ids key)) [
            | inl e' ↦ rw (a, e, e') absent
            | inr (shm, e') ↦
                rw (a, e, e') (existing-Opens n k hs v small g f.o_excl there shm key name e e')
          ]
        ]
      ]

  -- sem_open(), where what other processes do meanwhile keeps the invariant, and the ids for new
  -- objects are not in use then.
  pub sem_open-Opens :
      (path : Option (List ℕ)) (f : Flags)
      → Opens (n + 1) hs (sem_open files g i m meanwhile path f k)
  unfolding sem_open
  sem_open-Opens path f = elim (Result-cases (check_name path)) [
    | inl (e, refused) ↦ rw (refused, sem_open) (later n k hs v small)
    | inr (name, yes_name) ↦ elim (Bool-cases (f.o_creat && ltb sem_value_max f.value)) [
      | inl big ↦ rw (yes_name, big, sem_open) (later n k hs v small)
      | inr fits ↦ rw (yes_name, fits, sem_open) (checked-Opens f name)
    ]
  ]
