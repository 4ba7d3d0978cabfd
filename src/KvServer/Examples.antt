-- ===== src/KvServer/Examples.antt =====
-- The theorems about chapter_59/kv_server.c at concrete connections, and tests.
use tlpi_solutions.Common.{
  ℕ, ◌≡◌, refl, true, some, List, [], ◌∷◌, ◌++◌, arith, replicate, length-replicate,
}
use tlpi_solutions.Stream.{Event, chunk, failed, bytes, write_at}
use tlpi_solutions.KvStore.{kv_ok, SockAddr, inet, Store}
use tlpi_solutions.KvStore.Dict
use tlpi_solutions.KvStore.Validity.{IsValid}
use tlpi_solutions.KvStore.Contract.{Represents}
use tlpi_solutions.KvStore.Run.{Call, set, call_dict}
use tlpi_solutions.KvStore.Start.{initial, initial-IsValid, empty-Represents}
use tlpi_solutions.KvStore.Examples.{next_address, next_address-IsAllocator}
use tlpi_solutions.KvServer.{
  Stack, handle_client, parse_request_header, read_exact, read_exact_loop, ntohl_bytes,
  client_request, htonl_bytes, check_hdr, decode_hdr, op_get, op_set, send_status,
}
use tlpi_solutions.KvServer.Serve.{IsStack}
use tlpi_solutions.KvServer.Request.{request, response, handle_refines}
use tlpi_solutions.KvServer.RoundTrip.{set_then_get}
use tlpi_solutions.KvServer.Robust.{Completes, handle_client-IsValid}

abbrev stack : Stack
stack = record {
  hdr = replicate 12 0;
  key_buffer = replicate 256 0;
  value_buffer = replicate 4096 0;
}

stack-IsStack : IsStack stack
stack-IsStack = record {
  hdr_size = length-replicate {A = ℕ} 12 0;
  key_size = length-replicate {A = ℕ} 256 0;
  value_size = length-replicate {A = ℕ} 4096 0;
}

abbrev client : SockAddr
client = inet 0x0100007f 40001

abbrev bob : SockAddr
bob = inet 0x0200007f 40003

-- SET of the key "k" to "v1", which arrives in three pieces.
abbrev pieces : List Event
pieces =
    chunk (0 ∷ 0 ∷ 0 ∷ 2 ∷ 0 ∷ [])
    ∷ chunk (0 ∷ 0 ∷ 1 ∷ 0 ∷ 0 ∷ 0 ∷ 2 ∷ b'k' ∷ b'v' ∷ [])
    ∷ chunk (b'1' ∷ [])
    ∷ []

abbrev set_k : Call
set_k = set (b'k' ∷ []) (b'v' ∷ b'1' ∷ []) client true

pieces-request : bytes pieces ≡ request set_k
unfolding request client_request htonl_bytes
pieces-request = refl

handle_refines_example :
    (s' : Store) × (handle_client next_address true stack client initial pieces
      ≡ some (record { output = response (call_dict Dict.empty set_k).0; store = s' }))
    × IsValid s'
    × Represents s' (call_dict Dict.empty set_k).1
handle_refines_example =
    handle_refines next_address true stack client stack-IsStack next_address-IsAllocator initial
      Dict.empty pieces set_k initial-IsValid (empty-Represents initial initial-IsValid refl)
      (omega arith) (refl, refl, (omega arith, omega arith), (omega arith, omega arith))
      pieces-request

handle_client-IsValid_example :
    Completes (handle_client next_address true stack client initial (failed ∷ chunk (1 ∷ []) ∷ []))
handle_client-IsValid_example =
    handle_client-IsValid next_address next_address-IsAllocator true stack client stack-IsStack
      initial (failed ∷ chunk (1 ∷ []) ∷ []) initial-IsValid

-- An unknown operation.
abbrev bad_request : List Event
bad_request = chunk (0 ∷ 0 ∷ 0 ∷ 9 ∷ 0 ∷ 0 ∷ 0 ∷ 1 ∷ 0 ∷ 0 ∷ 0 ∷ 0 ∷ []) ∷ []

bad_parsed :
    (parse_request_header bad_request (replicate 12 0)).0
    ≡ some (5, record { opcode = 9; key_len = 1; value_len = 0 })
unfolding parse_request_header read_exact read_exact_loop write_at check_hdr decode_hdr ntohl_bytes
bad_parsed = refl

-- GET of the key "k".
abbrev get_k : List Event
get_k = chunk (0 ∷ 0 ∷ 0 ∷ 1 ∷ 0 ∷ 0 ∷ 0 ∷ 1 ∷ 0 ∷ []) ∷ chunk (0 ∷ 0 ∷ 0 ∷ b'k' ∷ []) ∷ []

get_k-request : bytes get_k ≡ client_request op_get (b'k' ∷ []) []
unfolding client_request htonl_bytes
get_k-request = refl

pieces-client_request : bytes pieces ≡ client_request op_set (b'k' ∷ []) (b'v' ∷ b'1' ∷ [])
unfolding client_request htonl_bytes
pieces-client_request = refl

accepted : (Dict.set Dict.empty (b'k' ∷ []) (b'v' ∷ b'1' ∷ []) client true).0 ≡ kv_ok
unfolding Dict.set Dict.set_status
accepted = refl

set_then_get_example :
    (s' : Store) × (s'' : Store) × (handle_client next_address true stack client initial pieces
      ≡ some (record { output = send_status kv_ok; store = s' }))
    × (handle_client next_address true stack bob s' get_k
        ≡ some (record {
          output = htonl_bytes 0 ++ (htonl_bytes 2 ++ (b'v' ∷ b'1' ∷ []));
          store = s'';
        }))
set_then_get_example =
    set_then_get next_address true stack stack client bob stack-IsStack stack-IsStack
      next_address-IsAllocator initial Dict.empty pieces get_k (b'k' ∷ []) (b'v' ∷ b'1' ∷ [])
      initial-IsValid (empty-Represents initial initial-IsValid refl) (omega arith) (omega arith)
      (omega arith, omega arith) (omega arith, omega arith) pieces-client_request get_k-request
      accepted
