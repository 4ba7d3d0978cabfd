-- ===== src/KvServer/Wire.antt =====
-- The byte order of the protocol of chapter_59/kv_server.c.
use tlpi_solutions.Common.{
  ℕ, ◌+◌, ◌*◌, ◌^◌, ◌<◌, ◌≡◌, refl, List, ◌++◌, arith, length, drop, take, length-append,
}
use tlpi_solutions.KvServer.{htonl_bytes, ntohl_bytes, host_bytes, decode_hdr, client_request}

-- A word below 2^32 comes back from the wire.
pub ntohl-htonl : (x : ℕ) (rest : List ℕ) → x < 2 ^ 32 → ntohl_bytes (htonl_bytes x ++ rest) ≡ x
unfolding ntohl_bytes htonl_bytes
ntohl-htonl x rest h = omega arith

-- A word below 256 stored without htonl() is read as its 2^24-fold.
pub ntohl-host : (x : ℕ) (rest : List ℕ) → x < 256 → ntohl_bytes (host_bytes x ++ rest) ≡ x * 2 ^ 24
unfolding ntohl_bytes host_bytes
ntohl-host x rest h = omega arith

-- The header that the client sends, whatever follows it in memory.
pub decode-client :
    (op : ℕ) (key value rest : List ℕ)
    → op < 2 ^ 32
    → length key < 2 ^ 32
    → length value < 2 ^ 32
    → decode_hdr (take 12 (client_request op key value) ++ rest)
      ≡ record { opcode = op; key_len = length key; value_len = length value }
unfolding decode_hdr client_request htonl_bytes ntohl_bytes
decode-client op key value rest ho hk hv = ground arith

pub length-client_request :
    (op : ℕ) (key value : List ℕ)
    → length (client_request op key value) ≡ 12 + (length key + length value)
unfolding client_request htonl_bytes
length-client_request op key value = omega (arith, length-append key value)

pub drop-client_request :
    (op : ℕ) (key value : List ℕ) → drop 12 (client_request op key value) ≡ key ++ value
unfolding client_request htonl_bytes
drop-client_request op key value = refl

pub take-client_request :
    (op : ℕ) (key value : List ℕ) → length (take 12 (client_request op key value)) ≡ 12
unfolding client_request htonl_bytes
take-client_request op key value = refl
