-- ===== src/KvStore/Contract.antt =====
-- The calls of chapter_59/kv_store.c against the map that they promise.
use tlpi_solutions.Common.{
  ℕ, ◌<◌, ◌≡◌, subst, sym, ap, ◌∙◌, Bool, true, false, Option, none, some, List, arith, length,
  if◌then◌else◌, refl,
}
use tlpi_solutions.KvStore.{
  KvRecord, KvStatus, kv_ok, kv_err_full, kv_err_nomem, kv_err_perm, kv_err_notfound, SockAddr,
  Store, deref, new_record, kv_store_set, kv_store_delete,
}
use tlpi_solutions.KvStore.Dict
use tlpi_solutions.KvStore.Dict.{Dict}
use tlpi_solutions.KvStore.Keys.{HasKey}
use tlpi_solutions.KvStore.Validity.{IsValid}
use tlpi_solutions.KvStore.Sets.{
  IsAbsent, IsFresh, SetOutcome, full, denied, no_memory_add, no_memory_update, added, updated,
  set_cases, SetOutcome-IsValid,
}
use tlpi_solutions.KvStore.Deletes.{
  DeleteOutcome, not_found, forbidden, deleted, delete_cases, DeleteOutcome-IsValid,
}
use tlpi_solutions.KvStore.Fetch.{fetch, fetch_found, fetch_missing}
use tlpi_solutions.KvStore.Reads.{fetch-appended, fetch-replaced, fetch-removed}

-- The store shows the map's entry to a get of any key, and holds as many records as the map.
pub record Represents (s : Store) (d : Dict) : Type 0 where
  pub shows : (j : List ℕ) → fetch s j ≡ some (d.entry j)
  pub counts : s.record_cnt ≡ d.size

abbrev pub allocated : Option ℕ → Bool
allocated none = false
allocated (some p) = true

some-if :
    (b : Bool) (x y : Option KvRecord) {f : Option (Option KvRecord)}
    → f ≡ some y
    → (if b then some x else f) ≡ some (if b then x else y)
some-if true x y e = refl
some-if false x y e = e

module _ (s : Store) (v : IsValid s) (d : Dict) (rep : Represents s d) (k : List ℕ) where
  entry_absent : IsAbsent s k → d.entry k ≡ none
  entry_absent absent = cc (fetch_missing s v k absent, rep.shows k)

  entry_present :
      (i : ℕ) (q : KvRecord)
      → i < s.record_cnt
      → deref s i ≡ some q
      → HasKey k q
      → d.entry k ≡ some q
  entry_present i q lt at has = cc (fetch_found s v k i q lt at has, rep.shows k)

  module _ (val : List ℕ) (c : SockAddr) where
    -- The status decides between the new map and the old one.
    set_as :
        (memory : Bool) (st : KvStatus) (s' : Store)
        → Dict.set_status (d.entry k) d.size c memory ≡ st
        → Represents s' (Dict.if_ok st (Dict.put d k val c) d)
        → (st ≡ (Dict.set d k val c memory).0) × Represents s' (Dict.set d k val c memory).1
    unfolding Dict.set
    set_as memory st s' e rep' =
        (sym e, subst (λ x. Represents s' (Dict.if_ok x (Dict.put d k val c) d)) (sym e) rep')

    allocated-none : (alloc : Option ℕ) → alloc ≡ none → allocated alloc ≡ false
    allocated-none alloc e = ground arith

    allocated-some : (alloc : Option ℕ) (p : ℕ) → alloc ≡ some p → allocated alloc ≡ true
    allocated-some alloc p e = ground arith

    SetOutcome-refines :
        (alloc : Option ℕ) {st : KvStatus} {s' : Store}
        → SetOutcome s k c (new_record k (length k) val (length val) c) alloc st s'
        → (st ≡ (Dict.set d k val c (allocated alloc)).0)
          × Represents s' (Dict.set d k val c (allocated alloc)).1
    unfolding Dict.set_status Dict.put
    SetOutcome-refines alloc (full absent e) =
        set_as (allocated alloc) kv_err_full s
          (rw (entry_absent absent) (ground (arith, rep.counts))) rep
    SetOutcome-refines alloc (denied i q lt at has foreign) =
        set_as (allocated alloc) kv_err_perm s (rw (entry_present i q lt at has) (rw foreign)) rep
    SetOutcome-refines alloc (no_memory_add e absent room) =
        set_as (allocated alloc) kv_err_nomem s
          (rw (entry_absent absent, allocated-none alloc e) (ground (arith, rep.counts))) rep
    SetOutcome-refines alloc (no_memory_update i q e lt at has own) =
        set_as (allocated alloc) kv_err_nomem s
          (rw (entry_present i q lt at has, allocated-none alloc e) (rw own)) rep
    SetOutcome-refines alloc (added p e fresh absent room) =
        set_as (allocated alloc) kv_ok _
          (rw (entry_absent absent, allocated-some alloc p e) (ground (arith, rep.counts)))
          (record {
            shows = λ j.
                fetch-appended s v p k val c fresh j room
                  (SetOutcome-IsValid s k val c alloc (added p e fresh absent room) v)
                ∙ some-if _ _ _ (rep.shows j);
            counts = rw (entry_absent absent) (omega (arith, rep.counts));
          })
    SetOutcome-refines alloc (updated p i old q e fresh lt slot at has own) =
        set_as (allocated alloc) kv_ok _
          (rw (entry_present i q lt at has, allocated-some alloc p e) (rw own))
          (record {
            shows = λ j.
                fetch-replaced s v p k val c fresh i old q j lt slot at has (
                  SetOutcome-IsValid s k val c alloc (updated p i old q e fresh lt slot at has own)
                    v)
                ∙ some-if _ _ _ (rep.shows j);
            counts = rw (entry_present i q lt at has) rep.counts;
          })

    -- A set in a valid store that represents a map comes back with the map's status, in a valid
    -- store that represents the map's next state.
    pub set_refines :
        (alloc : Option ℕ)
        → IsFresh s alloc
        → (s' : Store) × (kv_store_set s k (length k) val (length val) c alloc
            ≡ some ((Dict.set d k val c (allocated alloc)).0, s'))
          × IsValid s'
          × Represents s' (Dict.set d k val c (allocated alloc)).1
    set_refines alloc fresh =
        let (st, s', e, outcome) = set_cases s v k val c alloc fresh in
        let (status, rep') = SetOutcome-refines alloc outcome in
        (s', e ∙ ap (λ x. some (x, s')) status, SetOutcome-IsValid s k val c alloc outcome v, rep')

  module _ (c : SockAddr) where
    delete_as :
        (st : KvStatus) (s' : Store)
        → Dict.delete_status (d.entry k) c ≡ st
        → Represents s' (Dict.if_ok st (Dict.remove d k) d)
        → (st ≡ (Dict.delete d k c).0) × Represents s' (Dict.delete d k c).1
    unfolding Dict.delete
    delete_as st s' e rep' =
        (sym e, subst (λ x. Represents s' (Dict.if_ok x (Dict.remove d k) d)) (sym e) rep')

    DeleteOutcome-refines :
        {st : KvStatus} {s' : Store}
        → DeleteOutcome s k c st s'
        → (st ≡ (Dict.delete d k c).0) × Represents s' (Dict.delete d k c).1
    unfolding Dict.delete_status Dict.remove
    DeleteOutcome-refines (not_found absent) =
        delete_as kv_err_notfound s (rw (entry_absent absent)) rep
    DeleteOutcome-refines (forbidden i q lt at has foreign) =
        delete_as kv_err_perm s (rw (entry_present i q lt at has) (rw foreign)) rep
    DeleteOutcome-refines (deleted i existing last q lt slot end at has own) =
        delete_as kv_ok _ (rw (entry_present i q lt at has) (rw own)) (record {
          shows = λ j.
              fetch-removed s v i existing last q k lt slot end at has j
              ∙ some-if _ _ _ (rep.shows j);
          counts = omega (arith, rep.counts);
        })

    -- A delete in a valid store that represents a map comes back with the map's status, in a valid
    -- store that represents the map's next state.
    pub delete_refines :
        (s' : Store) × (kv_store_delete s k (length k) c ≡ some ((Dict.delete d k c).0, s'))
        × IsValid s'
        × Represents s' (Dict.delete d k c).1
    delete_refines =
        let (st, s', e, outcome) = delete_cases s v k c in
        let (status, rep') = DeleteOutcome-refines outcome in
        (s', e ∙ ap (λ x. some (x, s')) status, DeleteOutcome-IsValid s k c outcome v, rep')
