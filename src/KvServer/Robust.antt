-- ===== src/KvServer/Robust.antt =====
-- chapter_59/kv_server.c on connections that break off, fail or carry anything at all.
use tlpi_solutions.Common.{
  ℕ, ◌*◌, ◌^◌, ◌≡◌, ◌≢◌, ◌⊎◌, refl, sym, ◌∙◌, inl, inr, Bool, false, Option, some, List, [], arith,
  length, take, ◌==◌, ◌||◌, ◌≤◌, ltb, ◌>>=◌, Bool-cases, Option-cases, ==_iff,
}
use tlpi_solutions.Stream.{Event}
use tlpi_solutions.KvStore.{SockAddr, Store, kv_store_delete}
use tlpi_solutions.KvStore.Validity.{IsValid}
use tlpi_solutions.KvStore.Fetch.{fetch_cases}
use tlpi_solutions.KvStore.Sets.{set_cases, SetOutcome-IsValid}
use tlpi_solutions.KvStore.Deletes.{delete_cases, DeleteOutcome-IsValid}
use tlpi_solutions.KvStore.Run.{IsAllocator, malloc, malloc-IsFresh, call}
use tlpi_solutions.KvServer.{
  RequestHdr, check_hdr, Stack, Served, serve_get, serve_set, dispatch, serve_request,
  handle_client, parse_request_header, max_key_len, max_value_len, op_get, op_set, op_delete,
  size_max, read_exact, send_status, send_invalid, ntohl_bytes, res_status_err_invalid_req,
}
use tlpi_solutions.KvServer.Wire.{ntohl-host}
use tlpi_solutions.KvServer.Serve.{IsStack}
use tlpi_solutions.KvServer.Request.{serve_get-call}

-- The thread comes to its end, and leaves a valid store.
abbrev pub Completes : Option Served → Type 0
Completes m = (r : Served) × (m ≡ some r) × IsValid r.store

completes :
    (out : List ℕ) (s : Store) → IsValid s → Completes (some (record { output = out; store = s }))
completes out s v = (record { output = out; store = s }, refl, v)

-- The checks of the header leave the three operations.
check_hdr-opcode :
    (h : RequestHdr)
    → check_hdr h ≡ 0
    → (h.opcode ≡ op_get) ⊎ ((h.opcode ≡ op_set) ⊎ (h.opcode ≡ op_delete))
unfolding check_hdr
check_hdr-opcode h e = ground arith

-- They keep the lengths in the buffers.
check_hdr-lengths :
    (h : RequestHdr) → check_hdr h ≡ 0 → (h.key_len ≤ max_key_len) × (h.value_len ≤ max_value_len)
unfolding check_hdr
check_hdr-lengths h e = (ground (arith, e), ground (arith, e))

module _ (address : Store → ℕ) (allocator : IsAllocator address) (memory : Bool) (stack : Stack)
    (claddr : SockAddr) (sized : IsStack stack) where
  get-Completes : (s : Store) (key : List ℕ) → IsValid s → Completes (serve_get s key)
  unfolding call
  get-Completes s key v = elim (fetch_cases s v key) [
    | inl (e, absent) ↦ rw (serve_get-call address s key) (rw (e, ◌>>=◌) (completes _ s v))
    | inr (i, q, lt, at, has, e) ↦
        rw (serve_get-call address s key) (rw (e, ◌>>=◌) (completes _ s v))
  ]

  set-Completes :
      (s : Store) (key : List ℕ) (n : ℕ) (es : List Event)
      → IsValid s
      → n ≤ max_value_len
      → Completes (serve_set address memory stack claddr s key n es)
  unfolding serve_set
  set-Completes s key n es v fits =
      let r = read_exact es stack.value_buffer n in
      let room : ltb (length stack.value_buffer) n ≡ false =
        ground (arith, sized.value_size, fits) in
      elim (Bool-cases (r.ret == 0 || r.ret == size_max)) [
        | inl broken ↦ rw (room, broken) (completes [] s v)
        | inr whole ↦
            let value = take n r.buf in
            let (st, s', e, outcome) =
              set_cases s v key value claddr (malloc address s memory)
                (malloc-IsFresh address allocator s memory v) in
            rw (room, whole)
              (rw (e, ◌>>=◌)
                (completes (send_status st) s'
                  (SetOutcome-IsValid s key value claddr (malloc address s memory) outcome v)))
      ]

  delete-Completes :
      (s : Store) (key : List ℕ)
      → IsValid s
      → Completes (
          kv_store_delete s key (length key) claddr >>= λ r.
          some (let x : Served = record { output = send_status r.0; store = r.1 } in x))
  delete-Completes s key v =
      let (st, s', e, outcome) = delete_cases s v key claddr in
      rw (e, ◌>>=◌) (completes (send_status st) s' (DeleteOutcome-IsValid s key claddr outcome v))

  dispatch-Completes :
      (s : Store) (h : RequestHdr) (key : List ℕ) (es : List Event)
      → IsValid s
      → check_hdr h ≡ 0
      → Completes (dispatch address memory stack claddr s h key es)
  unfolding dispatch
  dispatch-Completes s h key es v checked = elim (check_hdr-opcode h checked) [
    | inl e ↦ rw e (get-Completes s key v)
    | inr (inl e) ↦ rw e (set-Completes s key h.value_len es v (check_hdr-lengths h checked).1)
    | inr (inr e) ↦ rw e (delete-Completes s key v)
  ]

  request-Completes :
      (s : Store) (h : RequestHdr) (es : List Event)
      → IsValid s
      → check_hdr h ≡ 0
      → Completes (serve_request address memory stack claddr s h es)
  unfolding serve_request
  request-Completes s h es v checked =
      let r = read_exact es stack.key_buffer h.key_len in
      let room : ltb (length stack.key_buffer) h.key_len ≡ false =
        ground (arith, sized.key_size, (check_hdr-lengths h checked).0) in
      elim (Bool-cases (r.ret == 0 || r.ret == size_max)) [
        | inl broken ↦ rw (room, broken) (completes [] s v)
        | inr whole ↦
            rw (room, whole) (dispatch-Completes s h (take h.key_len r.buf) r.rest v checked)
      ]

  parsed-check :
      (es : List Event) (code : ℕ) (h : RequestHdr)
      → (parse_request_header es stack.hdr).0 ≡ some (code, h)
      → check_hdr h ≡ code
  unfolding parse_request_header
  parsed-check es code h e = ground arith

  -- In a valid store, with the buffers that handle_client() declares, and while no other thread gets
  -- the mutex between a kv_store_get() and the read of its record: whatever arrives on a connection,
  -- failed reads and garbage included, the thread comes to its end, does not reach the `default`
  -- case, and leaves a valid store; it reads no more into its buffers than they have room for, and
  -- no record that is not allocated.
  pub handle_client-IsValid :
      (s : Store) (es : List Event)
      → IsValid s
      → Completes (handle_client address memory stack claddr s es)
  unfolding handle_client
  handle_client-IsValid s es v = elim (Option-cases (parse_request_header es stack.hdr).0) [
    | inl e ↦ rw (e, handle_client) (completes [] s v)
    | inr ((code, h), e) ↦ elim (Bool-cases (code == 0)) [
      | inl ok ↦
          rw (e, handle_client)
            (rw ok (
              request-Completes s h (parse_request_header es stack.hdr).1 v
                (parsed-check es code h e ∙ (==_iff code 0).0 ok)))
      | inr refused ↦ rw (e, handle_client) (rw refused (completes (send_invalid code) s v))
    ]
  ]

  refused_code : (h : RequestHdr) → check_hdr h ≢ 0 → check_hdr h ≡ res_status_err_invalid_req
  unfolding check_hdr
  refused_code h ne = ground arith

  -- A request whose header the checks refuse is answered, the store is unchanged, and the status
  -- that a client decodes from the answer is 5 * 2^24, where RES_STATUS_ERR_INVALID_REQ is 5.
  pub refused_status :
      (s : Store) (es : List Event) (code : ℕ) (h : RequestHdr)
      → (parse_request_header es stack.hdr).0 ≡ some (code, h)
      → code ≢ 0
      → (out : List ℕ) × (handle_client address memory stack claddr s es
          ≡ some (record { output = out; store = s }))
        × (ntohl_bytes out ≡ res_status_err_invalid_req * 2 ^ 24)
        × (ntohl_bytes out ≢ res_status_err_invalid_req)
  unfolding handle_client send_invalid
  refused_status s es code h e ne =
      let test : (code == 0) ≡ false = ground arith in
      let same : check_hdr h ≡ code = parsed-check es code h e in
      let five : code ≡ res_status_err_invalid_req =
        sym same ∙ refused_code h (λ z. ne (sym same ∙ z)) in
      let decoded : ntohl_bytes (send_invalid code) ≡ res_status_err_invalid_req * 2 ^ 24 =
        rw five (ntohl-host 5 _ (omega arith)) in
      (send_invalid code, rw (e, handle_client) (rw test), decoded, omega (arith, decoded))
