-- ===== src/KvStore/Dict.antt =====
-- What chapter_59/kv_store.c promises: a map from keys to records, each owned by the address that
-- set it, of at most `max_records` keys. The Boolean `memory` says whether malloc() succeeds.
use tlpi_solutions.Common.{
  ℕ, ◌+◌, ◌-◌, Bool, true, false, Option, none, some, List, leb, length, bytes_eq, if◌then◌else◌,
}
use tlpi_solutions.KvStore.{
  KvRecord, KvStatus, kv_ok, kv_err_full, kv_err_notfound, kv_err_nomem, kv_err_perm, SockAddr,
  max_records, same_ip_address, new_record,
}

pub record Dict : Type 0 where
  pub entry : List ℕ → Option KvRecord
  pub size : ℕ

abbrev pub empty : Dict
empty = record { entry = λ k. none; size = 0 }

abbrev memory_status : Bool → KvStatus
memory_status true = kv_ok
memory_status false = kv_err_nomem

unfoldable pub set_status : Option KvRecord → ℕ → SockAddr → Bool → KvStatus
set_status none size c memory = if leb max_records size then kv_err_full else memory_status memory
set_status (some q) size c memory =
    if same_ip_address c q.client_addr then memory_status memory else kv_err_perm

abbrev grow : Option KvRecord → ℕ → ℕ
grow none size = size + 1
grow (some q) size = size

-- The map after a set that succeeds.
unfoldable pub put : Dict → List ℕ → List ℕ → SockAddr → Dict
put d k val c = record {
  entry =
      λ j. if bytes_eq j k then some (new_record k (length k) val (length val) c) else d.entry j;
  size = grow (d.entry k) d.size;
}

abbrev pub if_ok : KvStatus → Dict → Dict → Dict
if_ok kv_ok d d' = d
if_ok kv_err_full d d' = d'
if_ok kv_err_notfound d d' = d'
if_ok kv_err_nomem d d' = d'
if_ok kv_err_perm d d' = d'

unfoldable pub set : Dict → List ℕ → List ℕ → SockAddr → Bool → KvStatus × Dict
unfolding set_status
set d k val c memory =
    let st = set_status (d.entry k) d.size c memory in (st, if_ok st (put d k val c) d)

unfoldable pub get_status : Option KvRecord → KvStatus
get_status none = kv_err_notfound
get_status (some q) = kv_ok

unfoldable pub delete_status : Option KvRecord → SockAddr → KvStatus
delete_status none c = kv_err_notfound
delete_status (some q) c = if same_ip_address c q.client_addr then kv_ok else kv_err_perm

-- The map after a delete that succeeds.
unfoldable pub remove : Dict → List ℕ → Dict
remove d k = record { entry = λ j. if bytes_eq j k then none else d.entry j; size = d.size - 1 }

unfoldable pub delete : Dict → List ℕ → SockAddr → KvStatus × Dict
unfolding delete_status
delete d k c = let st = delete_status (d.entry k) c in (st, if_ok st (remove d k) d)
