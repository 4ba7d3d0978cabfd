-- ===== src/PosixSem/KeepsClose.antt =====
-- sem_close(), sem_unlink(), and the operations on open semaphores of chapter_53/posix_sem.c keep
-- the invariant.
use tlpi_solutions.Common.{
  ℕ, ◌+◌, ◌-◌, ◌%◌, ◌<◌, ◌≡◌, refl, sym, ◌∙◌, Bool, true, Option, none, some, List, ◌∷◌, ◌==◌,
  arith, Bool-cases, Option-cases, inl, inr, ◌&&◌, leb,
}
use tlpi_solutions.PosixSem.{
  Object, Metadata, PosixSem, Kernel, Errno, einval, sem_magic, int_mod, put, decrement, increment,
  sem_vmx,
}
use tlpi_solutions.PosixSem.Tables.{put-object, some_injective}
use tlpi_solutions.PosixSem.Validity.{
  uses, IsValid, put_metadata-IsValid, put_value-IsValid, removed-IsValid,
}
use tlpi_solutions.PosixSem.Name.{Files, name_to_key, check_name}
use tlpi_solutions.PosixSem.Close.{destroy, drop_reference, sem_close, mark_unlinked, sem_unlink}
use tlpi_solutions.PosixSem.Operations.{sem_trywait, sem_post}
use tlpi_solutions.PosixSem.Handles.{tail-IsValid, uses-tail, Result-cases}

uses_self : (h : PosixSem) (hs : List PosixSem) → uses h.shmid (h ∷ hs) ≡ uses h.shmid hs + 1
unfolding uses
uses_self h hs = ground arith

module _ (n : ℕ) (k : Kernel) (hs : List PosixSem) (small : n < int_mod) where
  -- The removals of a segment that has no handle left, after new metadata.
  destroy-IsValid :
      (i m : ℕ) (o : Object Metadata) (d : Metadata)
      → k.shms.object m ≡ some o
      → k.sems.ids o.key ≡ some i
      → IsValid n (record k { shms = put k.shms m d }) hs
      → uses m hs ≡ 0
      → IsValid n (destroy i m (record k { shms = put k.shms m d })) hs
  unfolding destroy
  destroy-IsValid i m o d at there v none_left =
      let self : (m == m) ≡ true = ground arith in
      removed-IsValid n (record k { shms = put k.shms m d }) hs v i m
        (record { key = o.key; content = d }) (put-object k.shms m m o d at ∙ rw self refl) there
        none_left

  drop-IsValid :
      (h : PosixSem) (o : Object Metadata)
      → k.shms.object h.shmid ≡ some o
      → IsValid n k (h ∷ hs)
      → IsValid n (drop_reference h o.content k) hs
  unfolding drop_reference
  drop-IsValid h o at v =
      let rc = (o.content.ref_count + (int_mod - 1)) % int_mod in
      let d : Metadata = record o.content { ref_count = rc } in
      let c = v.segments h.shmid o at in
      let one_more : uses h.shmid (h ∷ hs) ≡ uses h.shmid hs + 1 = uses_self h hs in
      let down : rc + 1 ≡ o.content.ref_count = omega (arith, c.counted, c.bounded, one_more) in
      let stored : IsValid n (record k { shms = put k.shms h.shmid d }) hs =
        put_metadata-IsValid n k (h ∷ hs) v n hs h.shmid o d at
          (λ j q miss e.
            (let c' = v.segments j q e in
              record {
                counted = omega (arith, c'.counted, uses-tail j h hs);
                bounded = c'.bounded;
                magic = c'.magic;
              }))
          (record {
            counted = omega (arith, c.counted, one_more, down);
            bounded = omega (arith, c.bounded, down);
            magic = c.magic;
          })
          v.live.1 in
      elim (Bool-cases (rc == 0 && o.content.unlinked)) [
        | inr kept ↦ rw kept stored
        | inl last ↦
            let (o', at', there) = v.live.0 in
            let same : o' ≡ o = some_injective (sym at' ∙ at) in
            let none_left : uses h.shmid hs ≡ 0 =
              (let z : rc ≡ 0 = ground arith in omega (arith, c.counted, one_more, down)) in
            rw last (destroy-IsValid h.semid h.shmid o d at (rw (← same) there) stored none_left)
      ]

  pub sem_close-IsValid :
      (attaches : Bool) (h : PosixSem)
      → IsValid n k (h ∷ hs)
      → IsValid n (sem_close attaches (some h) k).1 hs
  unfolding sem_close
  sem_close-IsValid attaches h v = elim (Bool-cases attaches) [
    | inr a ↦ rw a (tail-IsValid n k h hs v)
    | inl a ↦ let (o, at, there) = v.live.0 in rw (a, at) (drop-IsValid h o at v)
  ]

  unlinked-IsValid :
      (i m : ℕ) (o : Object Metadata)
      → k.shms.object m ≡ some o
      → k.sems.ids o.key ≡ some i
      → IsValid n k hs
      → IsValid n (mark_unlinked i m o.content k).1 hs
  unfolding mark_unlinked
  unlinked-IsValid i m o at there v =
      let d : Metadata = record o.content { unlinked = true } in
      let c = v.segments m o at in
      let magic : (o.content.initialized == sem_magic) ≡ true = rw c.magic refl in
      let stored : IsValid n (record k { shms = put k.shms m d }) hs =
        put_metadata-IsValid n k hs v n hs m o d at (λ j q miss e. v.segments j q e)
          (record { counted = c.counted; bounded = c.bounded; magic = c.magic }) v.live in
      elim (Bool-cases (o.content.ref_count == 0)) [
        | inr kept ↦ rw (magic, kept) stored
        | inl last ↦
            let z : o.content.ref_count ≡ 0 = ground arith in
            rw (magic, last) (destroy-IsValid i m o d at there stored (omega (arith, c.counted)))
      ]

  pub sem_unlink-IsValid :
      (files : Files) (attaches : Bool) (path : Option (List ℕ))
      → IsValid n k hs
      → IsValid n (sem_unlink files attaches path k).1 hs
  unfolding sem_unlink
  sem_unlink-IsValid files attaches path v = elim (Result-cases (check_name path)) [
    | inl (e, refused) ↦ rw (refused, sem_unlink) v
    | inr (name, fine) ↦ elim (Option-cases (k.sems.ids (name_to_key files name))) [
      | inl e ↦ rw (fine, e, sem_unlink) v
      | inr (i, e) ↦ elim (Option-cases (k.shms.ids (name_to_key files name))) [
        | inl e' ↦ rw (fine, e, e', sem_unlink) v
        | inr (m, e') ↦ elim (Bool-cases attaches) [
          | inr a ↦ rw (fine, e, e', a, sem_unlink) v
          | inl a ↦
              let (o, at, key) = v.shms.found (name_to_key files name) m e' in
              rw (fine, e, e', a, at, sem_unlink) (unlinked-IsValid i m o at (rw key e) v)
        ]
      ]
    ]
  ]

  decrement-IsValid : (gone : Errno) (i : ℕ) → IsValid n k hs → IsValid n (decrement gone k i).1 hs
  unfolding decrement
  decrement-IsValid gone i v = elim (Option-cases (k.sems.object i)) [
    | inl e ↦ rw (e, decrement) v
    | inr (o, e) ↦ elim (Bool-cases (o.content == 0)) [
      | inl z ↦ rw (e, z, decrement) v
      | inr z ↦ rw (e, z, decrement) (put_value-IsValid n k hs v i o (o.content - 1) e)
    ]
  ]

  increment-IsValid : (i : ℕ) → IsValid n k hs → IsValid n (increment k i).1 hs
  unfolding increment
  increment-IsValid i v = elim (Option-cases (k.sems.object i)) [
    | inl e ↦ rw (e, increment) v
    | inr (o, e) ↦ elim (Bool-cases (leb sem_vmx o.content)) [
      | inl z ↦ rw (e, z, increment) v
      | inr z ↦ rw (e, z, increment) (put_value-IsValid n k hs v i o (o.content + 1) e)
    ]
  ]

  pub sem_trywait-IsValid :
      (h : Option PosixSem) → IsValid n k hs → IsValid n (sem_trywait h k).1 hs
  unfolding sem_trywait
  sem_trywait-IsValid none v = v
  sem_trywait-IsValid (some h) v = decrement-IsValid einval h.semid v

  pub sem_post-IsValid : (h : Option PosixSem) → IsValid n k hs → IsValid n (sem_post h k).1 hs
  unfolding sem_post
  sem_post-IsValid none v = v
  sem_post-IsValid (some h) v = increment-IsValid h.semid v
