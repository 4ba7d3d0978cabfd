-- ===== src/KvServer/RoundTrip.antt =====
-- Two connections of chapter_59/kv_server.c: what one client sets, another one gets.
use tlpi_solutions.Common.{
  ℕ, ◌≡◌, refl, ap, ◌∙◌, Bool, some, List, [], ◌++◌, length, bytes_eq_refl, take-length,
  drop-append_length,
}
use tlpi_solutions.Stream.{Event, bytes, IsClean}
use tlpi_solutions.KvStore.{kv_ok, SockAddr, Store, new_record}
use tlpi_solutions.KvStore.Dict
use tlpi_solutions.KvStore.Validity.{IsValid}
use tlpi_solutions.KvStore.Contract.{Represents}
use tlpi_solutions.KvStore.Run.{IsAllocator, set, get, call_dict}
use tlpi_solutions.KvServer.{
  Stack, handle_client, client_request, op_get, op_set, htonl_bytes, send_record, send_status,
}
use tlpi_solutions.KvServer.Serve.{IsStack}
use tlpi_solutions.KvServer.Request.{IsKey, IsValue, response, request, handle_refines}

-- The response to a get of a record that was set.
send_record-new_record :
    (key val : List ℕ) (c : SockAddr)
    → send_record (new_record key (length key) val (length val) c)
      ≡ htonl_bytes 0 ++ (htonl_bytes (length val) ++ val)
unfolding send_record new_record
send_record-new_record key val c =
    rw (take-length key, take-length val, drop-append_length key val, take-length val) refl

get_response :
    (d : Dict.Dict) (key val : List ℕ) (c : SockAddr) (memory : Bool)
    → (Dict.set d key val c memory).0 ≡ kv_ok
    → response (call_dict (call_dict d (set key val c memory)).1 (get key)).0
      ≡ htonl_bytes 0 ++ (htonl_bytes (length val) ++ val)
unfolding response Dict.set Dict.put call_dict
get_response d key val c memory ok =
    rw (ok) (rw (bytes_eq_refl key) (send_record-new_record key val c))

-- A client's set that the map accepts, and a get of the same key by another client: over
-- connections that bring the requests in pieces of any size and without errors, the first is
-- answered with the status of success, and the second with that status, the length of the value in
-- network order, and the value. This holds in a valid store that represents a map.
pub set_then_get :
    (address : Store → ℕ) (memory : Bool) (stack stack' : Stack) (writer reader : SockAddr)
    → IsStack stack
    → IsStack stack'
    → IsAllocator address
    → (s : Store) (d : Dict.Dict) (es es' : List Event) (key val : List ℕ) → IsValid s
    → Represents s d
    → IsClean es
    → IsClean es'
    → IsKey key
    → IsValue val
    → bytes es ≡ client_request op_set key val
    → bytes es' ≡ client_request op_get key []
    → (Dict.set d key val writer memory).0 ≡ kv_ok
    → (s' : Store) × (s'' : Store) × (handle_client address memory stack writer s es
        ≡ some (record { output = send_status kv_ok; store = s' }))
      × (handle_client address memory stack' reader s' es'
          ≡ some
              (record { output = htonl_bytes 0 ++ (htonl_bytes (length val) ++ val); store = s'' }))
unfolding response request call_dict
set_then_get address memory stack stack' writer reader sized sized' alloc s d es es' key val v rep c
      c' hk hv e e' ok =
    let (s', ran, v', rep') =
      handle_refines address memory stack writer sized alloc s d es (set key val writer memory) v
        rep c (refl, refl, hk, hv) e in
    let (s'', ran', v'', rep'') =
      handle_refines address memory stack' reader sized' alloc s' _ es' (get key) v' rep' c' hk
        e' in
    (
      s',
      s'',
      ran ∙ ap (λ st. some (record { output = send_status st; store = s' })) ok,
      ran'
          ∙ ap (λ out. some (record { output = out; store = s'' }))
              (get_response d key val writer memory ok),
    )
