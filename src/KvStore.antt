-- ===== src/KvStore.antt =====
-- chapter_59/kv_store.c and kv_store.h: the in-memory store of the key-value server.
-- `records` is the static array of pointers and `heap` the memory that malloc() and free() manage.
-- A function returns `none` where the C code would use or free memory that is not allocated.
-- Each function runs under `records_mutex` from its first statement to its return, so it is one
-- step. The pointer that malloc() returns, or its failure, is the argument `alloc`.
pub mod Keys
pub mod Validity
pub mod Search
pub mod Effects
pub mod Preserve
pub mod Sets
pub mod Deletes
pub mod Fetch
pub mod Reads
pub mod Dict
pub mod Contract
pub mod Run
pub mod Access
pub mod Start
pub mod Race
pub mod Examples
use tlpi_solutions.Common.{
  ℕ, zero, suc, ◌+◌, ◌-◌, Bool, true, false, ◌&&◌, Option, none, some, List, ◌++◌, ◌==◌, leb,
  if◌then◌else◌, ◌>>=◌, get_elem?, set, take, bytes_eq, not,
}

-- `struct sockaddr_storage`, as far as the store reads it: the address and port of an IPv4 or an
-- IPv6 peer (the IPv6 address is its 16 bytes), or another address family.
pub data SockAddr : Type 0 where
  inet : ℕ → ℕ → SockAddr
  inet6 : List ℕ → ℕ → SockAddr
  other : ℕ → SockAddr

pub record KvRecord : Type 0 where
  pub key_len : ℕ
  pub value_len : ℕ
  pub client_addr : SockAddr
  -- the key's bytes, then the value's
  pub content : List ℕ

-- the return values KV_OK, KV_ERR_FULL, KV_ERR_NOTFOUND, KV_ERR_NOMEM and KV_ERR_PERM
pub data KvStatus : Type 0 where
  kv_ok kv_err_full kv_err_notfound kv_err_nomem kv_err_perm : KvStatus

abbrev pub max_records : ℕ
max_records = 1024

abbrev pub Heap : Type 0
Heap = ℕ → Option KvRecord

pub record Store : Type 0 where
  pub records : List ℕ
  pub record_cnt : ℕ
  pub heap : Heap

abbrev pub update : Heap → ℕ → Option KvRecord → Heap
update h p v q = if p == q then v else h q

-- free(p): a fault unless `p` is allocated
pub free : ℕ → Heap → Option Heap
free p h = h p >>= λ _. some (update h p none)

-- *records[i]
pub deref : Store → ℕ → Option KvRecord
deref s i = get_elem? s.records i >>= s.heap

pub same_ip_address : SockAddr → SockAddr → Bool
same_ip_address (inet a p) (inet b q) = a == b
same_ip_address (inet6 a p) (inet6 b q) = bytes_eq a b
same_ip_address _ _ = false

-- key_len == curr->key_len && memcmp(key, curr->data, key_len) == 0
pub same_key : List ℕ → ℕ → KvRecord → Bool
same_key key key_len r =
    key_len == r.key_len && bytes_eq (take key_len key) (take key_len r.content)

-- The loop of kv_store_get_idx() with `n` rounds left, from index `i`; the inner `none` is -1.
pub get_idx_loop : Store → List ℕ → ℕ → ℕ → ℕ → Option (Option ℕ)
get_idx_loop s key key_len zero i = some none
get_idx_loop s key key_len (suc n) i = deref s i >>= λ curr. elim (same_key key key_len curr) [
  | true ↦ some (some i)
  | false ↦ get_idx_loop s key key_len n (i + 1)
]

pub kv_store_get_idx : Store → List ℕ → ℕ → Option (Option ℕ)
kv_store_get_idx s key key_len = get_idx_loop s key key_len s.record_cnt 0

-- The loop of kv_store_cleanup() with `n` rounds left, from index `i`.
pub free_records : ℕ → ℕ → Store → Option Heap
free_records zero i s = some s.heap
free_records (suc n) i s = get_elem? s.records i >>= λ p.
    free p s.heap >>= λ h. free_records n (i + 1) (record s { heap = h })

pub kv_store_cleanup : Store → Option Store
kv_store_cleanup s =
    free_records s.record_cnt 0 s >>= λ h. some (record s { record_cnt = 0; heap = h })

pub kv_store_init : Store → Option Store
unfolding kv_store_cleanup
kv_store_init s = kv_store_cleanup s

-- The filled-in record of kv_store_set().
unfoldable pub new_record : List ℕ → ℕ → List ℕ → ℕ → SockAddr → KvRecord
new_record key key_len value value_len client_addr = record {
  key_len = key_len;
  value_len = value_len;
  client_addr = client_addr;
  content = take key_len key ++ take value_len value;
}

-- The tail of kv_store_set() after the checks: append the new record or replace the old one.
pub persist : Store → Option ℕ → Option ℕ → KvRecord → Option (KvStatus × Store)
unfolding free
persist s maybe_idx none r = some (kv_err_nomem, s)
persist s none (some p) r = some (
  kv_ok,
  record s {
    records = set s.records s.record_cnt p;
    record_cnt = s.record_cnt + 1;
    heap = update s.heap p (some r);
  },
)
persist s (some i) (some p) r = get_elem? s.records i >>= λ old.
    free old (update s.heap p (some r)) >>= λ h.
    some (kv_ok, record s { records = set s.records i p; heap = h })

-- The checks of kv_store_set(): the owner of an existing record, or room for a new one.
pub check_set : Store → Option ℕ → SockAddr → Option KvStatus
check_set s none client_addr = some (if leb max_records s.record_cnt then kv_err_full else kv_ok)
check_set s (some i) client_addr = deref s i >>= λ existing.
    some (if same_ip_address client_addr existing.client_addr then kv_ok else kv_err_perm)

pub kv_store_set : Store → List ℕ → ℕ → List ℕ → ℕ → SockAddr → Option ℕ → Option (KvStatus × Store)
unfolding check_set persist
kv_store_set s key key_len value value_len client_addr alloc =
    kv_store_get_idx s key key_len >>= λ maybe_idx. check_set s maybe_idx client_addr >>= λ status.
    elim status [
      | kv_ok ↦ persist s maybe_idx alloc (new_record key key_len value value_len client_addr)
      | refused ↦ some (refused, s)
    ]

-- The second component is what goes through `result`: a pointer into the heap.
unfoldable pub kv_store_get : Store → List ℕ → ℕ → Option (KvStatus × Option ℕ)
kv_store_get s key key_len = kv_store_get_idx s key key_len >>= λ maybe_idx. elim maybe_idx [
  | none ↦ some (kv_err_notfound, none)
  | some i ↦ get_elem? s.records i >>= λ p. some (kv_ok, some p)
]

-- The end of kv_store_delete(): the last record moves to the slot of the deleted one.
pub remove_at : Store → ℕ → Option (KvStatus × Store)
unfolding free
remove_at s i = get_elem? s.records i >>= λ existing.
    get_elem? s.records (s.record_cnt - 1) >>= λ last. free existing s.heap >>= λ h. some (
      kv_ok,
      record s {
        records = if not (i == s.record_cnt - 1) then set s.records i last else s.records;
        record_cnt = s.record_cnt - 1;
        heap = h;
      },
    )

pub kv_store_delete : Store → List ℕ → ℕ → SockAddr → Option (KvStatus × Store)
unfolding remove_at
kv_store_delete s key key_len client_addr = kv_store_get_idx s key key_len >>= λ maybe_idx.
    elim maybe_idx [
      | none ↦ some (kv_err_notfound, s)
      | some i ↦ deref s i >>= λ existing.
          if same_ip_address client_addr existing.client_addr
          then remove_at s i
          else some (kv_err_perm, s)
    ]
