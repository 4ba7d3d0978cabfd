-- ===== src/KvServer.antt =====
-- chapter_59/kv_server.c, kv_proto.h, and the request and response code of chapter_59/kv_client.c:
-- the protocol of the key-value server. A connection is the list of what its read() calls meet.
-- What write() is given is the output; the code ignores what write() returns.
pub mod Wire
pub mod ReadExact
pub mod Serve
pub mod Request
pub mod Robust
pub mod RoundTrip
mod Examples
use tlpi_solutions.Common.{
  ℕ, ◌+◌, ◌-◌, ◌*◌, ◌^◌, ◌%◌, ◌/◌, Bool, true, false, ◌||◌, Option, none, some, List, [], ◌∷◌, ◌++◌,
  ◌==◌, ltb, leb, if◌then◌else◌, ◌>>=◌, length, take, drop, not,
}
use tlpi_solutions.Stream.{Event, chunk, interrupted, failed, write_at}
use tlpi_solutions.KvStore.{
  KvRecord, KvStatus, kv_ok, kv_err_full, kv_err_notfound, kv_err_nomem, kv_err_perm, SockAddr,
  Store, Heap, kv_store_get, kv_store_set, kv_store_delete,
}
use tlpi_solutions.KvStore.Run.{malloc}

-- `size_t` and its -1
abbrev pub size_mod : ℕ
size_mod = 2 ^ 64

abbrev pub size_max : ℕ
size_max = 2 ^ 64 - 1

pub record ReadResult : Type 0 where
  pub ret : ℕ
  pub buf : List ℕ
  pub rest : List Event

-- The loop of read_exact(), with `total_cnt` bytes read. A failed read() returns -1, which is
-- `size_max` in `read_size`: the test `read_size <= 0` does not see it, and `total_cnt` wraps.
pub read_exact_loop : List Event → List ℕ → ℕ → ℕ → ReadResult
read_exact_loop [] buf n total_cnt = record {
  ret = if ltb total_cnt n then 0 else total_cnt;
  buf = buf;
  rest = [];
}
read_exact_loop (interrupted ∷ es) buf n total_cnt = elim (ltb total_cnt n) [
  | true ↦ read_exact_loop es buf n ((total_cnt + size_max) % size_mod)
  | false ↦ record { ret = total_cnt; buf = buf; rest = interrupted ∷ es }
]
read_exact_loop (failed ∷ es) buf n total_cnt = elim (ltb total_cnt n) [
  | true ↦ read_exact_loop es buf n ((total_cnt + size_max) % size_mod)
  | false ↦ record { ret = total_cnt; buf = buf; rest = failed ∷ es }
]
read_exact_loop (chunk bs ∷ es) buf n total_cnt = elim (ltb total_cnt n) [
  | true ↦ elim (length bs == 0) [
    | true ↦ record { ret = 0; buf = buf; rest = es }
    | false ↦ elim (leb (length bs) (n - total_cnt)) [
      | true ↦ read_exact_loop es (write_at buf total_cnt bs) n ((total_cnt + length bs) % size_mod)
      | false ↦ record {
        ret = n;
        buf = write_at buf total_cnt (take (n - total_cnt) bs);
        rest = chunk (drop (n - total_cnt) bs) ∷ es;
      }
    ]
  ]
  | false ↦ record { ret = total_cnt; buf = buf; rest = chunk bs ∷ es }
]

pub read_exact : List Event → List ℕ → ℕ → ReadResult
read_exact es buf n = read_exact_loop es buf n 0

-- htonl() and the bytes of the result in memory
unfoldable pub htonl_bytes : ℕ → List ℕ
htonl_bytes x = x / 2 ^ 24 % 256 ∷ x / 2 ^ 16 % 256 ∷ x / 2 ^ 8 % 256 ∷ x % 256 ∷ []

-- ntohl() of the word that the first four bytes hold
pub ntohl_bytes : List ℕ → ℕ
ntohl_bytes (a ∷ b ∷ c ∷ d ∷ rest) = a * 2 ^ 24 + b * 2 ^ 16 + c * 2 ^ 8 + d
ntohl_bytes _ = 0

-- a `uint32_t` stored with no htonl(), on a little-endian host
pub host_bytes : ℕ → List ℕ
host_bytes x = x % 256 ∷ x / 2 ^ 8 % 256 ∷ x / 2 ^ 16 % 256 ∷ x / 2 ^ 24 % 256 ∷ []

-- OP_GET, OP_SET, OP_DELETE
abbrev pub op_get : ℕ
op_get = 1

abbrev pub op_set : ℕ
op_set = 2

abbrev pub op_delete : ℕ
op_delete = 3

abbrev pub max_key_len : ℕ
max_key_len = 256

abbrev pub max_value_len : ℕ
max_value_len = 4096

abbrev pub res_status_err_invalid_req : ℕ
res_status_err_invalid_req = 5

pub record RequestHdr : Type 0 where
  pub opcode : ℕ
  pub key_len : ℕ
  pub value_len : ℕ

-- The header's bytes after ntohl() of the three fields.
pub decode_hdr : List ℕ → RequestHdr
decode_hdr bs = record {
  opcode = ntohl_bytes bs;
  key_len = ntohl_bytes (drop 4 bs);
  value_len = ntohl_bytes (drop 8 bs);
}

-- The checks of parse_request_header(): its return value, 0 or RES_STATUS_ERR_INVALID_REQ.
pub check_hdr : RequestHdr → ℕ
check_hdr h =
    if ltb max_key_len h.key_len || ltb max_value_len h.value_len
    then res_status_err_invalid_req
    else if h.opcode == op_get || h.opcode == op_delete
    then (if h.key_len == 0 || not (h.value_len == 0) then res_status_err_invalid_req else 0)
    else if h.opcode == op_set
    then (if h.key_len == 0 || h.value_len == 0 then res_status_err_invalid_req else 0)
    else res_status_err_invalid_req

-- parse_request_header(): `hdr0` is what the header's memory held before. The result is -1, or the
-- value of the checks with the header; the events left stand beside it.
pub parse_request_header : List Event → List ℕ → Option (ℕ × RequestHdr) × List Event
parse_request_header es hdr0 =
    let r = read_exact es hdr0 12 in
    let hdr = decode_hdr r.buf in (if leb r.ret 0 then none else some (check_hdr hdr, hdr), r.rest)

-- the `switch` of send_response()
pub response_status : KvStatus → ℕ
response_status kv_ok = 0
response_status kv_err_full = 1
response_status kv_err_notfound = 2
response_status kv_err_nomem = 3
response_status kv_err_perm = 4

-- send_response() with a record to send, for a get that succeeds.
pub send_record : KvRecord → List ℕ
send_record r =
    htonl_bytes 0 ++ (htonl_bytes r.value_len ++ take r.value_len (drop r.key_len r.content))

-- send_response() with no value.
pub send_status : KvStatus → List ℕ
send_status st = htonl_bytes (response_status st) ++ host_bytes 0

-- The response to a header that the checks refuse: `res.status = hdr_parse_res`, with no htonl().
pub send_invalid : ℕ → List ℕ
send_invalid code = host_bytes code ++ host_bytes 0

-- What the thread has sent, and the store.
pub record Served : Type 0 where
  pub output : List ℕ
  pub store : Store

abbrev served : Option (KvStatus × Store) → Option Served
served m = m >>= λ r. some (record { output = send_status r.0; store = r.1 })

-- case OP_GET of handle_client(): the record is read behind the pointer. No other thread gets the
-- mutex between kv_store_get() and this read; KvStore/Race is about one that does.
pub serve_get : Store → List ℕ → Option Served
serve_get s key = kv_store_get s key (length key) >>= λ got. elim got.1 [
  | none ↦ some (record { output = send_status got.0; store = s })
  | some p ↦ s.heap p >>= λ r. some (record { output = send_record r; store = s })
]

-- The memory of a thread before it is written: the header, the key and the value buffer.
pub record Stack : Type 0 where
  pub hdr : List ℕ
  pub key_buffer : List ℕ
  pub value_buffer : List ℕ

module _ (address : Store → ℕ) (memory : Bool) (stack : Stack) (claddr : SockAddr) where
  -- case OP_SET of handle_client(); to read more than the buffer has room for is a fault
  pub serve_set : Store → List ℕ → ℕ → List Event → Option Served
  serve_set s key value_len es =
      let r = read_exact es stack.value_buffer value_len in
      let value = take value_len r.buf in
      if ltb (length stack.value_buffer) value_len
      then none
      else if r.ret == 0 || r.ret == size_max
      then some (record { output = []; store = s })
      else served
          (kv_store_set s key (length key) value (length value) claddr (malloc address s memory))

  -- the `switch` of handle_client(); the default case ends the process, and the checks of the
  -- header exclude it
  pub dispatch : Store → RequestHdr → List ℕ → List Event → Option Served
  dispatch s h key es =
      if h.opcode == op_get
      then serve_get s key
      else if h.opcode == op_set
      then serve_set s key h.value_len es
      else if h.opcode == op_delete
      then served (kv_store_delete s key (length key) claddr)
      else none

  -- The part of handle_client() after a header that passes the checks: the key is what the first
  -- `key_len` bytes of its buffer hold; to read more than it has room for is a fault.
  pub serve_request : Store → RequestHdr → List Event → Option Served
  serve_request s h es =
      let r = read_exact es stack.key_buffer h.key_len in
      if ltb (length stack.key_buffer) h.key_len
      then none
      else if r.ret == 0 || r.ret == size_max
      then some (record { output = []; store = s })
      else dispatch s h (take h.key_len r.buf) r.rest

  -- handle_client() after getpeername()
  pub handle_client : Store → List Event → Option Served
  handle_client s es =
      let parsed = parse_request_header es stack.hdr in
      elim parsed.0 [
        | none ↦ some (record { output = []; store = s })
        | some (code, h) ↦
            if code == 0
            then serve_request s h parsed.1
            else some (record { output = send_invalid code; store = s })
      ]

-- main() of chapter_59/kv_client.c, from "compose and send request": the bytes sent.
unfoldable pub client_request : ℕ → List ℕ → List ℕ → List ℕ
client_request opcode key value =
    htonl_bytes opcode
    ++ (htonl_bytes (length key) ++ (htonl_bytes (length value) ++ (key ++ value)))
