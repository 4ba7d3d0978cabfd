-- ===== src/KvStore/Examples.antt =====
-- The theorems about chapter_59/kv_store.c at concrete stores, and tests of the functions.
use tlpi_solutions.Common.{
  ℕ, zero, suc, ◌+◌, ◌≤◌, ◌≡◌, refl, subst, true, Option, none, some, List, [], ◌∷◌, arith, length,
  get_elem?, Option-cases, inl, inr,
}
use tlpi_solutions.KvStore.{
  KvRecord, kv_ok, kv_err_perm, SockAddr, inet, Store, kv_store_set, kv_store_get, kv_store_delete,
  new_record, kv_store_get_idx, get_idx_loop, deref, same_key, same_ip_address,
}
use tlpi_solutions.KvStore.Dict
use tlpi_solutions.KvStore.Validity.{IsValid}
use tlpi_solutions.KvStore.Sets.{IsFresh}
use tlpi_solutions.KvStore.Fetch.{fetch}
use tlpi_solutions.KvStore.Contract.{Represents, set_refines}
use tlpi_solutions.KvStore.Effects.{appended}
use tlpi_solutions.KvStore.Access.{HaveOneIp, HaveOneIp-same_ip_address, owner_protected}
use tlpi_solutions.KvStore.Race.{get_pointer_dangles}
use tlpi_solutions.KvStore.Run.{
  Call, Reply, status, found, call_dict, set, get, delete, IsAllocator, run, run_dict, run_refines,
}
use tlpi_solutions.KvStore.Start.{initial, initial-IsValid, empty-Represents}

sum : List ℕ → ℕ
sum [] = 0
sum (x ∷ xs) = x + sum xs

-- An address above every pointer of the store.
pub next_address : Store → ℕ
next_address s = suc (sum s.records)

get_elem?-le-sum : (xs : List ℕ) (i x : ℕ) → get_elem? xs i ≡ some x → x ≤ sum xs
unfolding sum
get_elem?-le-sum [] i x e = cc
get_elem?-le-sum (y ∷ ys) zero x e = let same : y ≡ x = cc in omega arith
get_elem?-le-sum (y ∷ ys) (suc i) x e = omega (arith, get_elem?-le-sum ys i x e)

pub next_address-IsAllocator : IsAllocator next_address
unfolding next_address
next_address-IsAllocator s v = elim (Option-cases (s.heap (suc (sum s.records)))) [
  | inl e ↦ e
  | inr (r, e) ↦
      let (i, lt, at) = v.owned (suc (sum s.records)) r e in
      absurd (omega (arith, get_elem?-le-sum s.records i (suc (sum s.records)) at))
]

abbrev alice : SockAddr
alice = inet 0x0100007f 40001

abbrev alice_again : SockAddr
alice_again = inet 0x0100007f 40002

abbrev bob : SockAddr
bob = inet 0x0200007f 40003

abbrev key : List ℕ
key = b'k' ∷ b'1' ∷ []

abbrev value : List ℕ
value = b'o' ∷ b'n' ∷ b'e' ∷ []

abbrev made : KvRecord
made = new_record key 2 value 3 alice

-- The store after alice's first set, with its record at the address 7.
abbrev one : Store
one = appended initial 7 made

set_first : kv_store_set initial key 2 value 3 alice (some 7) ≡ some (kv_ok, one)
unfolding kv_store_set kv_store_get_idx get_idx_loop
set_first = refl

abbrev alloc-IsFresh : IsFresh initial (some 7)
alloc-IsFresh p e = refl

alice_stored :
    (s' : Store) × (kv_store_set initial key 2 value 3 alice (some 7)
      ≡ some ((Dict.set Dict.empty key value alice true).0, s'))
    × IsValid s'
    × Represents s' (Dict.set Dict.empty key value alice true).1
alice_stored =
    set_refines initial initial-IsValid Dict.empty (empty-Represents initial initial-IsValid refl)
      key value alice (some 7) alloc-IsFresh

one-IsValid : IsValid one × Represents one (Dict.set Dict.empty key value alice true).1
one-IsValid =
    let (s', e, v', rep') = alice_stored in
    let same : s' ≡ one = cc set_first in
    (
      subst IsValid same v',
      subst (λ s. Represents s (Dict.set Dict.empty key value alice true).1) same rep',
    )

-- alice sets, bob may neither set nor delete, alice deletes from another port.
abbrev calls : List Call
calls =
    set key value alice true
    ∷ set key value bob true
    ∷ delete key bob
    ∷ get key
    ∷ delete key alice_again
    ∷ get key
    ∷ []

run_replies :
    (run_dict Dict.empty calls).0
    ≡ status kv_ok
      ∷ status kv_err_perm
      ∷ status kv_err_perm
      ∷ found (some made)
      ∷ status kv_ok
      ∷ found none
      ∷ []
unfolding run_dict call_dict Dict.set Dict.set_status Dict.put Dict.delete Dict.delete_status
    Dict.remove same_ip_address new_record
run_replies = refl

run_refines_example :
    (s' : Store) × (run next_address initial calls ≡ some ((run_dict Dict.empty calls).0, s'))
    × IsValid s'
    × Represents s' (run_dict Dict.empty calls).1
run_refines_example =
    run_refines next_address next_address-IsAllocator initial Dict.empty calls initial-IsValid
      (empty-Represents initial initial-IsValid refl)

one_shows : fetch one key ≡ some (some made)
unfolding fetch kv_store_get kv_store_get_idx get_idx_loop deref same_key new_record
one_shows = refl

abbrev bobs_calls : List Call
bobs_calls = set key (b'x' ∷ []) bob true ∷ delete key bob ∷ get key ∷ []

bob_foreign : ¬ HaveOneIp bob made.client_addr
unfolding same_ip_address new_record
bob_foreign same = ground (arith, HaveOneIp-same_ip_address bob made.client_addr same)

owner_protected_example :
    (replies : List Reply) × (s' : Store) × (run next_address one bobs_calls ≡ some (replies, s'))
    × (fetch s' key ≡ some (some made))
unfolding new_record
owner_protected_example =
    owner_protected next_address next_address-IsAllocator one _ key made bobs_calls one-IsValid.0
      one-IsValid.1 one_shows (bob_foreign, (bob_foreign, (tt, tt)))

hands_out : kv_store_get one key 2 ≡ some (kv_ok, some 7)
unfolding kv_store_get kv_store_get_idx get_idx_loop deref same_key new_record
hands_out = refl

get_pointer_dangles_example :
    ((c : SockAddr) (s' : Store)
      → kv_store_delete one key 2 c ≡ some (kv_ok, s')
      → s'.heap 7 ≡ none)
    × ((val : List ℕ) (c : SockAddr) (alloc : Option ℕ) (s' : Store)
        → IsFresh one alloc
        → kv_store_set one key 2 val (length val) c alloc ≡ some (kv_ok, s')
        → s'.heap 7 ≡ none)
get_pointer_dangles_example = get_pointer_dangles one one-IsValid.0 key 7 hands_out
