-- ===== src/KvStore/Run.antt =====
-- Sequences of calls of chapter_59/kv_store.c, in the order in which the threads get the mutex.
use tlpi_solutions.Common.{
  ℕ, ◌≡◌, refl, subst, ap, Bool, true, false, Option, none, some, List, [], ◌∷◌, length, ◌>>=◌,
}
use tlpi_solutions.KvStore.{KvRecord, KvStatus, SockAddr, Store, kv_store_set, kv_store_delete}
use tlpi_solutions.KvStore.Dict
use tlpi_solutions.KvStore.Dict.{Dict}
use tlpi_solutions.KvStore.Validity.{IsValid}
use tlpi_solutions.KvStore.Sets.{IsFresh}
use tlpi_solutions.KvStore.Fetch.{fetch}
use tlpi_solutions.KvStore.Contract.{Represents, allocated, set_refines, delete_refines}

-- The calls of the clients. A set carries whether malloc() succeeds.
pub data Call : Type 0 where
  set : List ℕ → List ℕ → SockAddr → Bool → Call
  get : List ℕ → Call
  delete : List ℕ → SockAddr → Call

-- A get replies with the record behind the pointer; the others with their status.
pub data Reply : Type 0 where
  status : KvStatus → Reply
  found : Option KvRecord → Reply

-- malloc(): `address` chooses where a new record is put.
abbrev pub malloc : (Store → ℕ) → Store → Bool → Option ℕ
malloc address s true = some (address s)
malloc address s false = none

abbrev reply_with : Option (KvStatus × Store) → Option (Reply × Store)
reply_with m = m >>= λ r. some (status r.0, r.1)

unfoldable pub call : (Store → ℕ) → Store → Call → Option (Reply × Store)
call address s (set k val c memory) =
    reply_with (kv_store_set s k (length k) val (length val) c (malloc address s memory))
call address s (get k) = fetch s k >>= λ o. some (found o, s)
call address s (delete k c) = reply_with (kv_store_delete s k (length k) c)

unfoldable pub run : (Store → ℕ) → Store → List Call → Option (List Reply × Store)
run address s [] = some ([], s)
run address s (x ∷ xs) =
    call address s x >>= λ r. run address r.1 xs >>= λ rest. some (r.0 ∷ rest.0, rest.1)

unfoldable pub call_dict : Dict → Call → Reply × Dict
call_dict d (set k val c memory) = let (st, d') = Dict.set d k val c memory in (status st, d')
call_dict d (get k) = (found (d.entry k), d)
call_dict d (delete k c) = let (st, d') = Dict.delete d k c in (status st, d')

unfoldable pub run_dict : Dict → List Call → List Reply × Dict
run_dict d [] = ([], d)
run_dict d (x ∷ xs) = let (r, d') = call_dict d x in let (rest, e) = run_dict d' xs in (r ∷ rest, e)

-- malloc() returns memory that is not in use.
abbrev pub IsAllocator : (Store → ℕ) → Type 0
IsAllocator address = (s : Store) → IsValid s → s.heap (address s) ≡ none

module _ (address : Store → ℕ) (allocator : IsAllocator address) where
  pub malloc-IsFresh : (s : Store) (memory : Bool) → IsValid s → IsFresh s (malloc address s memory)
  malloc-IsFresh s true v p e = let same : address s ≡ p = cc in rw (← same) (allocator s v)
  malloc-IsFresh s false v p e = cc

  allocated-malloc : (s : Store) (memory : Bool) → allocated (malloc address s memory) ≡ memory
  allocated-malloc s true = refl
  allocated-malloc s false = refl

  pub call_refines :
      (s : Store) (d : Dict) (x : Call)
      → IsValid s
      → Represents s d
      → (s' : Store) × (call address s x ≡ some ((call_dict d x).0, s'))
        × IsValid s'
        × Represents s' (call_dict d x).1
  unfolding call call_dict
  call_refines s d (set k val c memory) v rep =
      let alloc = malloc address s memory in
      let (s', e, v', rep') = set_refines s v d rep k val c alloc (malloc-IsFresh s memory v) in
      let same : allocated alloc ≡ memory = allocated-malloc s memory in
      (
        s',
        rw (e, ◌>>=◌) (ap (λ b. some (status (Dict.set d k val c b).0, s')) same),
        v',
        subst (λ b. Represents s' (Dict.set d k val c b).1) same rep',
      )
  call_refines s d (get k) v rep = (s, rw (rep.shows k, ◌>>=◌), v, rep)
  call_refines s d (delete k c) v rep =
      let (s', e, v', rep') = delete_refines s v d rep k c in (s', rw (e, ◌>>=◌), v', rep')

  -- From a valid store that represents a map, any calls come back with the map's replies, in a
  -- valid store that represents the map's last state.
  pub run_refines :
      (s : Store) (d : Dict) (calls : List Call)
      → IsValid s
      → Represents s d
      → (s' : Store) × (run address s calls ≡ some ((run_dict d calls).0, s'))
        × IsValid s'
        × Represents s' (run_dict d calls).1
  unfolding run run_dict
  run_refines s d [] v rep = (s, refl, v, rep)
  run_refines s d (x ∷ xs) v rep =
      let (t, e, vt, rt) = call_refines s d x v rep in
      let (u, e', vu, ru) = run_refines t (call_dict d x).1 xs vt rt in
      (u, rw (e, ◌>>=◌) (rw (e', ◌>>=◌)), vu, ru)
