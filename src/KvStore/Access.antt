-- ===== src/KvStore/Access.antt =====
-- Who may change a record of chapter_59/kv_store.c.
use tlpi_solutions.Common.{
  ℕ, ◌≡◌, ◌∙◌, inl, inr, sym, ap, arith, true, false, subst, ==_iff, some, List, [], ◌∷◌, bytes_eq,
  bytes_eq_refl, bytes_eq_sound, Bool-cases,
}
use tlpi_solutions.KvStore.{
  KvRecord, KvStatus, kv_ok, kv_err_full, kv_err_notfound, kv_err_nomem, kv_err_perm, SockAddr,
  inet, inet6, other, Store, same_ip_address,
}
use tlpi_solutions.KvStore.Dict
use tlpi_solutions.KvStore.Dict.{Dict}
use tlpi_solutions.KvStore.Validity.{IsValid}
use tlpi_solutions.KvStore.Fetch.{fetch}
use tlpi_solutions.KvStore.Contract.{Represents}
use tlpi_solutions.KvStore.Run.{
  Call, Reply, set, get, delete, IsAllocator, run, run_dict, run_refines, call_dict,
}

-- Two peers have one IP address: both are of IPv4 or both of IPv6, with any ports.
pub data HaveOneIp : SockAddr → SockAddr → Type 0 where
  ipv4 : (address p q : ℕ) → HaveOneIp (inet address p) (inet address q)
  ipv6 : (address : List ℕ) (p q : ℕ) → HaveOneIp (inet6 address p) (inet6 address q)

-- The store takes no others for the same.
same_ip_address-HaveOneIp : (a b : SockAddr) → same_ip_address a b ≡ true → HaveOneIp a b
unfolding same_ip_address
same_ip_address-HaveOneIp (inet a p) (inet b q) e =
    subst (λ c. HaveOneIp (inet a p) (inet c q)) ((==_iff a b).0 e) (ipv4 a p q)
same_ip_address-HaveOneIp (inet6 a p) (inet6 b q) e =
    subst (λ c. HaveOneIp (inet6 a p) (inet6 c q)) (bytes_eq_sound a b e) (ipv6 a p q)
same_ip_address-HaveOneIp (inet a p) (inet6 b q) e = absurd (ground (arith, e))
same_ip_address-HaveOneIp (inet a p) (other f) e = absurd (ground (arith, e))
same_ip_address-HaveOneIp (inet6 a p) (inet b q) e = absurd (ground (arith, e))
same_ip_address-HaveOneIp (inet6 a p) (other f) e = absurd (ground (arith, e))
same_ip_address-HaveOneIp (other f) b e = absurd (ground (arith, e))

-- It takes those for the same.
pub HaveOneIp-same_ip_address : (a b : SockAddr) → HaveOneIp a b → same_ip_address a b ≡ true
unfolding same_ip_address
HaveOneIp-same_ip_address _ _ (ipv4 a p q) = ground arith
HaveOneIp-same_ip_address _ _ (ipv6 a p q) = bytes_eq_refl a

-- The call does not come from the IP address of `q`'s owner.
abbrev pub IsForeign : KvRecord → Call → Type 0
IsForeign q (set k val c memory) = ¬ HaveOneIp c q.client_addr
IsForeign q (get k) = Unit {0}
IsForeign q (delete k c) = ¬ HaveOneIp c q.client_addr

refused : (c owner : SockAddr) → ¬ HaveOneIp c owner → same_ip_address c owner ≡ false
refused c owner foreign = elim (Bool-cases (same_ip_address c owner)) [
  | inl e ↦ absurd (foreign (same_ip_address-HaveOneIp c owner e))
  | inr e ↦ e
]

abbrev pub AllForeign : KvRecord → List Call → Type 0
AllForeign q [] = Unit {0}
AllForeign q (x ∷ xs) = IsForeign q x × AllForeign q xs

put_other :
    (d : Dict) (k j val : List ℕ) (q : KvRecord) (c : SockAddr)
    → d.entry k ≡ some q
    → bytes_eq k j ≡ false
    → (Dict.put d j val c).entry k ≡ some q
unfolding Dict.put
put_other d k j val q c e ne = rw ne e

remove_other :
    (d : Dict) (k j : List ℕ) (q : KvRecord)
    → d.entry k ≡ some q
    → bytes_eq k j ≡ false
    → (Dict.remove d j).entry k ≡ some q
unfolding Dict.remove
remove_other d k j q e ne = rw ne e

if_ok-keeps :
    (st : KvStatus) (a b : Dict) (k : List ℕ) (q : KvRecord)
    → a.entry k ≡ some q
    → b.entry k ≡ some q
    → (Dict.if_ok st a b).entry k ≡ some q
if_ok-keeps kv_ok a b k q ea eb = ea
if_ok-keeps kv_err_full a b k q ea eb = eb
if_ok-keeps kv_err_notfound a b k q ea eb = eb
if_ok-keeps kv_err_nomem a b k q ea eb = eb
if_ok-keeps kv_err_perm a b k q ea eb = eb

call-keeps :
    (d : Dict) (k : List ℕ) (q : KvRecord) (x : Call)
    → d.entry k ≡ some q
    → IsForeign q x
    → (call_dict d x).1.entry k ≡ some q
unfolding call_dict Dict.set Dict.set_status Dict.delete Dict.delete_status
call-keeps d k q (set j val c memory) e foreign = elim (Bool-cases (bytes_eq k j)) [
  | inl same ↦
      let here : d.entry j ≡ some q = ap d.entry (sym (bytes_eq_sound k j same)) ∙ e in
      rw here (rw (refused c q.client_addr foreign) e)
  | inr differs ↦ if_ok-keeps _ (Dict.put d j val c) d k q (put_other d k j val q c e differs) e
]
call-keeps d k q (get j) e foreign = e
call-keeps d k q (delete j c) e foreign = elim (Bool-cases (bytes_eq k j)) [
  | inl same ↦
      let here : d.entry j ≡ some q = ap d.entry (sym (bytes_eq_sound k j same)) ∙ e in
      rw here (rw (refused c q.client_addr foreign) e)
  | inr differs ↦ if_ok-keeps _ (Dict.remove d j) d k q (remove_other d k j q e differs) e
]

run_dict-keeps :
    (d : Dict) (k : List ℕ) (q : KvRecord) (calls : List Call)
    → d.entry k ≡ some q
    → AllForeign q calls
    → (run_dict d calls).1.entry k ≡ some q
unfolding run_dict
run_dict-keeps d k q [] e h = e
run_dict-keeps d k q (x ∷ xs) e h =
    run_dict-keeps (call_dict d x).1 k q xs (call-keeps d k q x e h.0) h.1

-- In a valid store that represents a map, where a get of `k` shows the record `q`: any calls of
-- which no set and no delete comes from the IP address of the owner of `q` come back, and then a
-- get of `k` shows `q` again.
pub owner_protected :
    (address : Store → ℕ) (allocator : IsAllocator address) (s : Store) (d : Dict) (k : List ℕ)
    (q : KvRecord) (calls : List Call)
    → IsValid s
    → Represents s d
    → fetch s k ≡ some (some q)
    → AllForeign q calls
    → (replies : List Reply) × (s' : Store) × (run address s calls ≡ some (replies, s'))
      × (fetch s' k ≡ some (some q))
owner_protected address allocator s d k q calls v rep shown foreign =
    let e : d.entry k ≡ some q = cc (rep.shows k) in
    let (s', ran, v', rep') = run_refines address allocator s d calls v rep in
    ((run_dict d calls).0, s', ran, rep'.shows k ∙ ap some (run_dict-keeps d k q calls e foreign))
