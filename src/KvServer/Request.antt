-- ===== src/KvServer/Request.antt =====
-- A client's request to chapter_59/kv_server.c against the map that the store promises.
use tlpi_solutions.Common.{
  ℕ, ◌^◌, ◌<◌, ◌≤◌, ◌≡◌, refl, sym, ap, ◌∙◌, Bool, false, Option, none, some, List, [], ◌++◌, arith,
  length, take, drop, ◌==◌, ltb, ◌||◌, ◌>>=◌, take-length, take-append_length,
}
use tlpi_solutions.Stream.{Event, bytes, IsClean}
use tlpi_solutions.KvStore.{
  KvStatus, kv_err_notfound, SockAddr, Store, kv_store_get, kv_store_delete,
}
use tlpi_solutions.KvStore.Dict.{Dict}
use tlpi_solutions.KvStore.Validity.{IsValid}
use tlpi_solutions.KvStore.Fetch.{fetch}
use tlpi_solutions.KvStore.Contract.{Represents}
use tlpi_solutions.KvStore.Run.{
  IsAllocator, Call, set, get, delete, Reply, status, found, call, call_dict, call_refines,
}
use tlpi_solutions.KvServer.{
  RequestHdr, check_hdr, Stack, Served, serve_get, serve_set, dispatch, serve_request,
  handle_client, parse_request_header, client_request, op_get, op_set, op_delete, max_key_len,
  max_value_len, size_max, read_exact, send_status, send_record,
}
use tlpi_solutions.KvServer.ReadExact.{read_exact_full}
use tlpi_solutions.KvServer.Serve.{IsStack, parse_client, read_key}

-- The bytes that answer a reply of the store.
unfoldable pub response : Reply → List ℕ
response (status st) = send_status st
response (found none) = send_status kv_err_notfound
response (found (some r)) = send_record r

abbrev respond : Option (Reply × Store) → Option Served
respond m = m >>= λ r. some (record { output = response r.0; store = r.1 })

-- The bytes that the client sends for a call.
unfoldable pub request : Call → List ℕ
request (set k val c memory) = client_request op_set k val
request (get k) = client_request op_get k []
request (delete k c) = client_request op_delete k []

-- The lengths of a key and of a value that the server accepts.
abbrev pub IsKey : List ℕ → Type 0
IsKey k = (0 < length k) × (length k ≤ max_key_len)

abbrev pub IsValue : List ℕ → Type 0
IsValue val = (0 < length val) × (length val ≤ max_value_len)

-- The call is one that a client at `claddr` can make of a thread in which malloc() succeeds or
-- fails as `memory` says.
abbrev pub IsFrom : SockAddr → Bool → Call → Type 0
IsFrom claddr memory (set k val c m) = (c ≡ claddr) × (m ≡ memory) × IsKey k × IsValue val
IsFrom claddr memory (get k) = IsKey k
IsFrom claddr memory (delete k c) = (c ≡ claddr) × IsKey k

respond-status :
    (m : Option (KvStatus × Store))
    → (m >>= λ r. some (let x : Served = record { output = send_status r.0; store = r.1 } in x))
      ≡ respond (m >>= λ r. some (status r.0, r.1))
unfolding response
respond-status none = refl
respond-status (some r) = refl

pub serve_get-call :
    (address : Store → ℕ) (s : Store) (key : List ℕ)
    → serve_get s key ≡ respond (call address s (get key))
unfolding serve_get call fetch kv_store_get response
serve_get-call address s key = ground arith

module _ (address : Store → ℕ) (memory : Bool) (stack : Stack) (claddr : SockAddr)
    (sized : IsStack stack) where
  header_accepted :
      (s : Store) (es es' : List Event) (h : RequestHdr) (code : ℕ)
      → parse_request_header es stack.hdr ≡ (some (code, h), es')
      → code ≡ 0
      → handle_client address memory stack claddr s es
        ≡ serve_request address memory stack claddr s h es'
  unfolding handle_client
  header_accepted s es es' h code e zero_code =
      rw (e, handle_client)
        (rw zero_code (
          ap
            (λ (x : Option (ℕ × RequestHdr) × List Event).
              serve_request address memory stack claddr s h x.1)
            e))

  key_read :
      (s : Store) (es es' : List Event) (h : RequestHdr) (key : List ℕ)
      → 0 < h.key_len
      → h.key_len ≤ max_key_len
      → (read_exact es stack.key_buffer h.key_len).ret ≡ h.key_len
      → take h.key_len (read_exact es stack.key_buffer h.key_len).buf ≡ key
      → (read_exact es stack.key_buffer h.key_len).rest ≡ es'
      → serve_request address memory stack claddr s h es
        ≡ dispatch address memory stack claddr s h key es'
  unfolding serve_request
  key_read s es es' h key pos fits ret got rest =
      let room : ltb (length stack.key_buffer) h.key_len ≡ false =
        ground (arith, sized.key_size, fits) in
      rw (room, got, rest)
        (let no_error : (h.key_len == 0 || h.key_len == size_max) ≡ false = ground arith in
          rw (ret, no_error))

  -- A thread that reads a request of an accepted length comes to the `switch` with its key.
  serve_client :
      (s : Store) (es : List Event) (op : ℕ) (key value : List ℕ)
      → IsClean es
      → bytes es ≡ client_request op key value
      → op < 2 ^ 32
      → IsKey key
      → length value ≤ max_value_len
      → check_hdr (record { opcode = op; key_len = length key; value_len = length value }) ≡ 0
      → (es' : List Event) × (handle_client address memory stack claddr s es
          ≡ dispatch address memory stack claddr s
              (record { opcode = op; key_len = length key; value_len = length value })
              key
              es')
        × (bytes es' ≡ value)
        × IsClean es'
  serve_client s es op key value c e ho hk hv checked =
      let (es', parsed, left, c') =
        parse_client es stack.hdr op key value c sized.hdr_size e ho (omega arith) (omega arith) in
      let (es'', ret, got, rest, left', c'') =
        read_key es' stack.key_buffer key value c' sized.key_size left hk.1 in
      (
        es'',
        header_accepted s es es' _ _ parsed checked
            ∙ key_read s es' es'' _ key hk.0 hk.1 ret got rest,
        left',
        c'',
      )

  dispatch-set :
      (s : Store) (key value : List ℕ) (es : List Event)
      → IsClean es
      → bytes es ≡ value
      → IsValue value
      → dispatch address memory stack claddr s
          (record { opcode = op_set; key_len = length key; value_len = length value })
          key
          es
        ≡ respond (call address s (set key value claddr memory))
  unfolding dispatch serve_set call response
  dispatch-set s key value es c e hv =
      let (es', ran, left, c') =
        read_exact_full es stack.value_buffer (length value) c (rw e (omega arith))
          (omega (arith, sized.value_size)) (omega arith) in
      let nothing : List ℕ = drop (length value) stack.value_buffer in
      let got : take (length value) (take (length value) (bytes es) ++ nothing) ≡ value =
        rw (e, take-length value) (take-append_length value nothing) in
      let no_error : (length value == 0 || length value == size_max) ≡ false = ground arith in
      let room : ltb (length stack.value_buffer) (length value) ≡ false =
        ground (arith, sized.value_size, hv) in
      rw (room, ran, no_error, got) (respond-status _)

  -- The request of a call is answered as the call is.
  handle_call :
      (s : Store) (es : List Event) (x : Call)
      → IsClean es
      → IsFrom claddr memory x
      → bytes es ≡ request x
      → handle_client address memory stack claddr s es ≡ respond (call address s x)
  unfolding request dispatch call
  handle_call s es (set k val c m) clean from e =
      let (es', ran, left, c') =
        serve_client s es op_set k val clean e (omega arith) from.2 (from.3.1)
          (unfold check_hdr in ground arith) in
      ran
      ∙ dispatch-set s k val es' c' left from.3
      ∙ ap (λ a. respond (call address s (set k val a memory))) (sym from.0)
      ∙ ap (λ b. respond (call address s (set k val c b))) (sym from.1)
  handle_call s es (get k) clean from e =
      let (es', ran, left, c') =
        serve_client s es op_get k [] clean e (omega arith) from (omega arith)
          (unfold check_hdr in ground arith) in
      ran ∙ serve_get-call address s k
  handle_call s es (delete k c) clean from e =
      let (es', ran, left, c') =
        serve_client s es op_delete k [] clean e (omega arith) from.1 (omega arith)
          (unfold check_hdr in ground arith) in
      ran
      ∙ respond-status (kv_store_delete s k (length k) claddr)
      ∙ ap (λ a. respond (call address s (delete k a))) (sym from.0)

  -- In a valid store that represents a map: a connection that brings, in pieces of any size and
  -- without errors, the client's request for a call of accepted lengths is answered with the bytes
  -- for the map's reply, and the store stays valid and represents the map's next state.
  pub handle_refines :
      (allocator : IsAllocator address) (s : Store) (d : Dict) (es : List Event) (x : Call)
      → IsValid s
      → Represents s d
      → IsClean es
      → IsFrom claddr memory x
      → bytes es ≡ request x
      → (s' : Store) × (handle_client address memory stack claddr s es
          ≡ some (record { output = response (call_dict d x).0; store = s' }))
        × IsValid s'
        × Represents s' (call_dict d x).1
  handle_refines allocator s d es x v rep clean from e =
      let (s', ran, v', rep') = call_refines address allocator s d x v rep in
      (s', handle_call s es x clean from e ∙ rw (ran, ◌>>=◌), v', rep')
