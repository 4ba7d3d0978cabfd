-- ===== src/PosixSem/OpenCases.antt =====
-- How sem_open() of chapter_53/posix_sem.c can end.
use tlpi_solutions.Common.{
  ℕ, ◌+◌, ◌%◌, ◌≡◌, ◌⊎◌, refl, Bool, none, some, List, ◌==◌, Bool-cases, inl, inr, not, ◌||◌, ltb,
}
use tlpi_solutions.PosixSem.{
  Object, Metadata, PosixSem, Kernel, Result, err, Errno, einval, enoent, eexist, other, sem_magic,
  int_mod, sem_vmx, create, put,
}
use tlpi_solutions.PosixSem.Tables.{put-create, remove-create}
use tlpi_solutions.PosixSem.Open.{
  Flags, Grants, finish_open, open_existing, open_created, new_metadata, zeros,
}

-- The call fails and leaves the kernel's state, or comes to its end in the state `k'`.
abbrev pub FailsOr : Result PosixSem × Kernel → Kernel → Grants → ℕ → ℕ → List ℕ → Kernel → Type 0
FailsOr r k g i m name k' = ((e : Errno) × (r ≡ (err e, k))) ⊎ (r ≡ finish_open g i m name k')

-- The reference that an open adds.
unfoldable pub referred : Metadata → Metadata
referred d = record d { ref_count = (d.ref_count + 1) % int_mod }

pub existing_cases :
    (g : Grants) (excl : Bool) (i m : ℕ) (name : List ℕ) (k : Kernel) (o : Object Metadata)
    → k.shms.object m ≡ some o
    → FailsOr
        (open_existing g excl i m name k)
        k
        g
        i
        m
        name
        (record k { shms = put k.shms m (referred o.content) })
unfolding open_existing referred
existing_cases g excl i m name k o at = elim (Bool-cases excl) [
  | inl b ↦ inl (eexist, rw (b, open_existing) refl)
  | inr b ↦ elim (Bool-cases g.attaches) [
    | inr a ↦ inl (other, rw (b, a, open_existing) refl)
    | inl a ↦ elim (Bool-cases (o.content.initialized == sem_magic)) [
      | inr c ↦ inl (einval, rw (b, a, at, c, open_existing) refl)
      | inl c ↦ elim (Bool-cases o.content.unlinked) [
        | inl d ↦ inl (enoent, rw (b, a, at, c, d, open_existing) refl)
        | inr d ↦ inr (rw (b, a, at, c, d, open_existing) refl)
      ]
    ]
  ]
]

pub created_cases :
    (g : Grants) (f : Flags) (key i m : ℕ) (name : List ℕ) (k : Kernel)
    → k.sems.ids key ≡ none
    → k.shms.ids key ≡ none
    → k.sems.object i ≡ none
    → k.shms.object m ≡ none
    → FailsOr
        (open_created g f key i m name (record k { sems = create k.sems key i 0 }))
        k
        g
        i
        m
        name
        (record {
          sems = create k.sems key i f.value;
          shms = create k.shms key m (new_metadata f name);
        })
unfolding open_created
created_cases g f key i m name k new new_shm fresh fresh_shm =
    let undone = remove-create k.sems key i 0 new fresh in
    let valued = put-create k.sems key i 0 f.value in
    let unvalued = remove-create k.sems key i f.value new fresh in
    let made = put-create k.shms key m zeros (new_metadata f name) in
    let unmade = remove-create k.shms key m zeros new_shm fresh_shm in
    elim (Bool-cases g.creates_shm) [
      | inr a ↦ inl (other, rw (a, undone) refl)
      | inl a ↦ elim (Bool-cases (not g.sets_value || ltb sem_vmx f.value)) [
        | inl b ↦ inl (other, rw (a, new_shm, b, undone, unmade) refl)
        | inr b ↦ elim (Bool-cases g.attaches) [
          | inr c ↦ inl (other, rw (a, new_shm, b, c, valued, unvalued, unmade) refl)
          | inl c ↦ inr (rw (a, new_shm, b, c, valued, made) refl)
        ]
      ]
    ]
