-- ===== src/Pftp/Client.antt =====
-- chapter_61/pftp_client.c: the loop of main(), which receives the file. `none` is a recv() that gives
-- 0 or -1.
use tlpi_solutions.Common.{
  ℕ, ◌+◌, Bool, true, false, Option, none, some, List, [], ◌∷◌, ◌++◌, ◌==◌, leb, not, if◌then◌else◌,
  length, drop, scan, skip_spaces,
}
use tlpi_solutions.Pftp.{buffer_size, resp_size, resp_error, msg_complete, c_string, has_prefix}

-- The globals, with whether `output_file` is open, what has been written to it, and how many bytes
-- were stored behind `buffer`.
pub record Client : Type 0 where
  pub output_file : Bool
  pub written : List ℕ
  pub file_size : ℕ
  pub bytes_received : ℕ
  pub outside : ℕ

abbrev pub connected : Client
connected = record {
  output_file = false;
  written = [];
  file_size = 0;
  bytes_received = 0;
  outside = 0;
}

-- atol(), where a negative number is 0: file_size is only compared with numbers that are not.
unfoldable pub atol : List ℕ → ℕ
unfolding scan
atol [] = 0
atol (c ∷ cs) = if c == b'-' then 0 else if c == b'+' then scan cs 0 else scan (c ∷ cs) 0

pub data Handled : Type 0 where
  exits : ℕ → Handled
  goes_on : Client → Handled

-- The first response, where `creates` says whether fopen() succeeds.
unfoldable pub first_response : (creates : Bool) → List ℕ → Client → Handled
unfolding atol c_string has_prefix skip_spaces
first_response creates bytes c =
    let buffer = c_string bytes in
    let c1 = record c { outside = c.outside + (if leb buffer_size (length bytes) then 1 else 0) } in
    let size = atol (skip_spaces (drop (length resp_size) buffer)) in
    if has_prefix resp_size buffer
    then (if creates
        then goes_on (record c1 { file_size = size; output_file = true; written = [] })
        else exits 1)
    else if has_prefix resp_error buffer
    then exits 1
    else if has_prefix msg_complete buffer
    then exits 0
    else goes_on c1

-- File data.
unfoldable pub store_data : List ℕ → Client → Client
store_data bytes c =
    let received = c.bytes_received + length bytes in
    record c {
      written = c.written ++ bytes;
      bytes_received = received;
      output_file = not (leb c.file_size received);
    }

unfoldable pub handle_server_data : (creates : Bool) → Option (List ℕ) → Client → Handled
unfolding first_response store_data
handle_server_data creates none c = exits 1
handle_server_data creates (some bytes) c =
    if not c.output_file then first_response creates bytes c else goes_on (store_data bytes c)

pub data Finish : Type 0 where
  waiting completed : Client → Finish
  exited : ℕ → Finish

-- What follows handle_server_data() in the loop.
unfoldable pub check_completed : Handled → (Client → Finish) → Finish
check_completed (exits code) next = exited code
check_completed (goes_on c) next = if c.output_file then next c else completed c

-- The loop of main() over what the recv() calls on the normal connection give.
unfoldable pub client_loop : (creates : Bool) → List (Option (List ℕ)) → Client → Finish
unfolding handle_server_data check_completed
client_loop creates [] c = waiting c
client_loop creates (input ∷ inputs) c =
    check_completed (handle_server_data creates input c) (client_loop creates inputs)
