-- ===== src/PosixSem/Lifecycle.antt =====
-- The life of a semaphore of chapter_53/posix_sem.c: created, opened again, unlinked and closed.
use tlpi_solutions.Common.{
  ℕ, ◌≤◌, ◌<◌, ◌≡◌, refl, sym, ap, ◌∙◌, subst, Bool, true, false, Option, none, some, List, ◌∷◌,
  ◌==◌, ltb, ◌&&◌, arith, length, take, Bool-cases, inl, inr,
}
use tlpi_solutions.PosixSem.{
  Metadata, PosixSem, Kernel, Result, ok, err, sem_magic, sem_vmx, sem_value_max, name_max, create,
  put,
}
use tlpi_solutions.PosixSem.Tables.{put-create, remove-create, create-ids, create-object}
use tlpi_solutions.PosixSem.Name.{Files, slash, name_to_key, check_name}
use tlpi_solutions.PosixSem.Open.{
  Flags, Grants, finish_open, open_existing, open_created, open_missing, open_checked, sem_open,
  new_metadata, zeros,
}
use tlpi_solutions.PosixSem.Close.{destroy, drop_reference, sem_close, mark_unlinked, sem_unlink}

-- No resource is refused.
abbrev pub granted : Grants
granted = record {
  malloc = true;
  creates_sem = true;
  creates_shm = true;
  sets_value = true;
  attaches = true;
  strdup = true;
}

-- The state in which a set and a segment are added under a key.
abbrev pub with_pair : Kernel → ℕ → ℕ → ℕ → ℕ → Metadata → Kernel
with_pair k key i m value d = record {
  sems = create k.sems key i value;
  shms = create k.shms key m d;
}

abbrev pub handle : ℕ → ℕ → List ℕ → PosixSem
handle i m name = record { semid = i; shmid = m; name = name; ref_count = 1 }

abbrev pub path_of : List ℕ → Option (List ℕ)
path_of name = some (slash ∷ name)

pub check_path : (name : List ℕ) → length name < name_max → check_name (path_of name) ≡ ok name
unfolding check_name
check_path name short = ground arith

-- The result is an error.
abbrev pub Fails : Result PosixSem → Type 0
Fails (ok h) = ⊥
Fails (err e) = Unit {0}

and_false : (b : Bool) → (b && false) ≡ false
and_false true = refl
and_false false = refl

module _ (files : Files) (k : Kernel) (f : Flags) (name : List ℕ) (i m : ℕ)
    (short : length name < name_max) (creat : f.o_creat ≡ true) (fits : f.value ≤ sem_vmx)
    (new : k.sems.ids (name_to_key files name) ≡ none)
    (new_shm : k.shms.ids (name_to_key files name) ≡ none) (fresh : k.sems.object i ≡ none)
    (fresh_shm : k.shms.object m ≡ none) where
  abbrev key : ℕ
  key = name_to_key files name

  abbrev made : Metadata → Kernel
  made d = with_pair k key i m f.value d

  created :
      open_created granted f key i m name (record k { sems = create k.sems key i 0 })
      ≡ (ok (handle i m name), made (new_metadata f name))
  unfolding open_created finish_open
  created =
      let settable : ltb sem_vmx f.value ≡ false = ground arith in
      let value = put-create k.sems key i 0 f.value in
      let metadata = put-create k.shms key m zeros (new_metadata f name) in
      rw (new_shm, open_created, settable, value, metadata) refl

  missing :
      open_missing granted f key i m name k ≡ (ok (handle i m name), made (new_metadata f name))
  unfolding open_missing
  missing = rw (new, open_missing) created

  through :
      open_checked files granted i m (λ x. x) f name k
      ≡ (ok (handle i m name), made (new_metadata f name))
  unfolding open_checked
  through = rw (new, open_checked, creat) missing

  creates :
      sem_open files granted i m (λ x. x) (path_of name) f k
      ≡ (ok (handle i m name), made (new_metadata f name))
  unfolding sem_open
  creates =
      let checked = check_path name short in
      let small : ltb sem_value_max f.value ≡ false = ground arith in
      rw (checked, sem_open, small, and_false f.o_creat) through

  -- The metadata with a number of references, unlinked or not.
  abbrev state : Bool → ℕ → Metadata
  state unlinked refs = record {
    initialized = sem_magic;
    unlinked = unlinked;
    ref_count = refs;
    mode = f.mode;
    name = take 254 name;
  }

  -- What is found under the key and the ids of the new pair.
  made-shm : (d : Metadata) → (made d).shms.object m ≡ some (record { key = key; content = d })
  made-shm d =
      create-object k.shms key m m d ∙ (let self : (m == m) ≡ true = ground arith in rw self refl)

  made-ids : (d : Metadata) → ((made d).sems.ids key ≡ some i) × ((made d).shms.ids key ≡ some m)
  made-ids d =
      let self : (key == key) ≡ true = ground arith in
      (
        create-ids k.sems key i key f.value ∙ rw self refl,
        create-ids k.shms key m key d ∙ rw self refl,
      )

  reput : (d d' : Metadata) → put (create k.shms key m d) m d' ≡ create k.shms key m d'
  reput d d' = put-create k.shms key m d d'

  -- The removal of the pair.
  gone : (d : Metadata) → destroy i m (made d) ≡ k
  unfolding destroy
  gone d =
      rw
        (
          remove-create k.sems key i f.value new fresh,
          remove-create k.shms key m d new_shm fresh_shm,
        )
        refl

  unlinks :
      sem_unlink files true (path_of name) (made (state false 1)) ≡ (ok tt, made (state true 1))
  unfolding sem_unlink mark_unlinked
  unlinks =
      let (a, b) = made-ids (state false 1) in
      rw
        (
          check_path name short,
          sem_unlink,
          a,
          b,
          made-shm (state false 1),
          reput (state false 1) (state true 1),
        )
        refl

  unlinks_last : sem_unlink files true (path_of name) (made (state false 0)) ≡ (ok tt, k)
  unfolding sem_unlink mark_unlinked
  unlinks_last =
      let (a, b) = made-ids (state false 0) in
      rw
        (
          check_path name short,
          sem_unlink,
          a,
          b,
          made-shm (state false 0),
          reput (state false 0) (state true 0),
        )
        (ap (λ x. (ok tt, x)) (gone (state true 0)))

  closes :
      sem_close true (some (handle i m name)) (made (state false 1)) ≡ (ok tt, made (state false 0))
  unfolding sem_close drop_reference
  closes = rw (made-shm (state false 1), sem_close, reput (state false 1) (state false 0)) refl

  closes_last : sem_close true (some (handle i m name)) (made (state true 1)) ≡ (ok tt, k)
  unfolding sem_close drop_reference
  closes_last =
      rw (made-shm (state true 1), sem_close, reput (state true 1) (state true 0))
        (ap (λ x. (ok tt, x)) (gone (state true 0)))

  -- With no resource refused, where no object has the key of a name of less than 255 bytes, and ids
  -- for new objects are not in use: a sem_open() that creates the semaphore with a value that the
  -- kernel accepts gives a handle; then sem_unlink() and sem_close(), in either order, return 0 and
  -- restore the kernel's state.
  pub open-unlink-close :
      let (opened, k1) = sem_open files granted i m (λ x. x) (path_of name) f k in
      let h = handle i m name in
      let (u, k2) = sem_unlink files true (path_of name) k1 in
      let (c, k3) = sem_close true (some h) k1 in
      (opened ≡ ok h)
      × (u ≡ ok tt)
      × (sem_close true (some h) k2 ≡ (ok tt, k))
      × (c ≡ ok tt)
      × (sem_unlink files true (path_of name) k3 ≡ (ok tt, k))
  unfolding new_metadata
  open-unlink-close = rw creates (
    refl,
    ap (λ r. r.0) unlinks,
    ap (λ r. sem_close true (some (handle i m name)) r.1) unlinks ∙ closes_last,
    ap (λ r. r.0) closes,
    ap (λ r. sem_unlink files true (path_of name) r.1) closes ∙ unlinks_last,
  )

  module _ (g : Grants) (i' m' : ℕ) (meanwhile : Kernel → Kernel) (f' : Flags) where
    existing-Fails : Fails (open_existing g f'.o_excl i m name (made (state true 1))).0
    unfolding open_existing
    existing-Fails = elim (Bool-cases f'.o_excl) [
      | inl a ↦ rw (a, open_existing) tt
      | inr a ↦ elim (Bool-cases g.attaches) [
        | inr b ↦ rw (a, b, open_existing) tt
        | inl b ↦ rw (a, b, made-shm (state true 1), open_existing) tt
      ]
    ]

    reopen-Fails :
        Fails (sem_open files g i' m' meanwhile (path_of name) f' (made (state true 1))).0
    unfolding sem_open open_checked
    reopen-Fails =
        let (a, b) = made-ids (state true 1) in
        elim (Bool-cases (f'.o_creat && ltb sem_value_max f'.value)) [
          | inl c ↦ rw (check_path name short, sem_open, c) tt
          | inr c ↦ elim (Bool-cases g.malloc) [
            | inr x ↦ rw (check_path name short, sem_open, c, x) tt
            | inl x ↦ rw (check_path name short, sem_open, c, x, a, b) existing-Fails
          ]
        ]

    -- With no resource refused at the creation, where no object has the key of a name of less than
    -- 255 bytes, the ids for the new objects are not in use, and the kernel accepts the value:
    -- after the semaphore is created and unlinked, and before it is closed, no sem_open() of its
    -- name succeeds, whatever its flags.
    pub unlinked_blocks_name :
        (let (opened, k1) = sem_open files granted i m (λ x. x) (path_of name) f k in
          let (u, k2) = sem_unlink files true (path_of name) k1 in
          (u ≡ ok tt) × Fails (sem_open files g i' m' meanwhile (path_of name) f' k2).0)
    unfolding new_metadata
    unlinked_blocks_name = rw creates (
      ap (λ r. r.0) unlinks,
      subst (λ r. Fails (sem_open files g i' m' meanwhile (path_of name) f' r.1).0) (sym unlinks)
          reopen-Fails,
    )
