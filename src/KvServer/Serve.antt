-- ===== src/KvServer/Serve.antt =====
-- One connection of chapter_59/kv_server.c, from the client's request to the bytes sent back.
use tlpi_solutions.Common.{
  ℕ, ◌^◌, ◌<◌, ◌≤◌, ◌≡◌, refl, ap, ◌∙◌, some, List, ◌++◌, arith, length, take, drop, length-append,
  take-append_length, drop-append_length,
}
use tlpi_solutions.Stream.{Event, bytes, IsClean}
use tlpi_solutions.KvServer.{
  check_hdr, decode_hdr, parse_request_header, Stack, client_request, max_key_len, max_value_len,
  read_exact,
}
use tlpi_solutions.KvServer.Wire.{decode-client, length-client_request, drop-client_request}
use tlpi_solutions.KvServer.ReadExact.{read_exact_full}

-- The buffers of handle_client() have the sizes that it declares.
pub record IsStack (stack : Stack) : Type 0 where
  pub hdr_size : length stack.hdr ≡ 12
  pub key_size : length stack.key_buffer ≡ max_key_len
  pub value_size : length stack.value_buffer ≡ max_value_len

-- A clean stream that carries a client's request is parsed to its header, and the key and the
-- value are left.
pub parse_client :
    (es : List Event) (hdr0 : List ℕ) (op : ℕ) (key value : List ℕ)
    → IsClean es
    → length hdr0 ≡ 12
    → bytes es ≡ client_request op key value
    → op < 2 ^ 32
    → length key < 2 ^ 32
    → length value < 2 ^ 32
    → (es' : List Event) × (parse_request_header es hdr0 ≡ (
      some (
        check_hdr (record { opcode = op; key_len = length key; value_len = length value }),
        record { opcode = op; key_len = length key; value_len = length value },
      ),
      es',
    ))
      × (bytes es' ≡ key ++ value)
      × IsClean es'
unfolding parse_request_header
parse_client es hdr0 op key value c h0 e ho hk hv =
    let (es', ran, left, c') =
      read_exact_full es hdr0 12 c (rw e (omega (arith, length-client_request op key value)))
        (omega arith) (omega arith) in
    let hdr : decode_hdr (take 12 (bytes es) ++ drop 12 hdr0)
        ≡ record { opcode = op; key_len = length key; value_len = length value } =
      rw e (decode-client op key value (drop 12 hdr0) ho hk hv) in
    (es', rw ran (rw hdr), left ∙ ap (drop 12) e ∙ drop-client_request op key value, c')

-- The key is read, and the value is left.
pub read_key :
    (es : List Event) (buf key value : List ℕ)
    → IsClean es
    → length buf ≡ max_key_len
    → bytes es ≡ key ++ value
    → length key ≤ max_key_len
    → (es' : List Event) × ((read_exact es buf (length key)).ret ≡ length key)
      × (take (length key) (read_exact es buf (length key)).buf ≡ key)
      × ((read_exact es buf (length key)).rest ≡ es')
      × (bytes es' ≡ value)
      × IsClean es'
read_key es buf key value c size e fits =
    let (es', ran, left, c') =
      read_exact_full es buf (length key) c (rw e (omega (arith, length-append key value)))
        (omega arith) (omega arith) in
    (
      es',
      rw ran refl,
      rw ran (
          rw e
            (rw (take-append_length key value) (take-append_length key (drop (length key) buf)))),
      rw ran refl,
      left ∙ ap (drop (length key)) e ∙ drop-append_length key value,
      c',
    )
