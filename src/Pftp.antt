-- ===== src/Pftp.antt =====
-- chapter_61/pftp.h, pftp_common.c, pftp_server.c, pftp_client.c: a file transfer over two
-- connections. This file has the strings and the names; Server and Client have the two programs.

pub mod Server
pub mod Paths
pub mod Inside
pub mod Connected
pub mod Files
pub mod Client
pub mod Transfer
pub mod Pieces
pub mod Receive
pub mod Download
mod Examples
use tlpi_solutions.Common.{
  ℕ, zero, suc, ◌-◌, ◌%◌, Bool, true, false, Option, none, some, List, [], ◌∷◌, ◌++◌, ◌==◌, ltb,
  ◌&&◌, ◌||◌, not, if◌then◌else◌, length, drop, codes, scan, is_space, skip_spaces,
}

abbrev pub buffer_size : ℕ
buffer_size = 8192

abbrev pub max_filename_len : ℕ
max_filename_len = 255

abbrev pub files_dir : List ℕ
files_dir = codes "files"

abbrev pub cmd_connect : List ℕ
cmd_connect = codes "CONNECT:"

abbrev pub cmd_transfer : List ℕ
cmd_transfer = codes "TRANSFER:"

abbrev pub cmd_cookie : List ℕ
cmd_cookie = codes "COOKIE:"

abbrev pub cmd_reset : List ℕ
cmd_reset = codes "RESET"

abbrev pub cmd_verified : List ℕ
cmd_verified = codes "VERIFIED"

abbrev pub resp_error : List ℕ
resp_error = codes "ERROR:"

abbrev pub resp_size : List ℕ
resp_size = codes "SIZE:"

abbrev pub msg_ok : List ℕ
msg_ok = codes "OK\n"

abbrev pub msg_complete : List ℕ
msg_complete = codes "COMPLETE\n"

abbrev pub msg_reset_cancelled : List ℕ
msg_reset_cancelled = codes "RESET:Transfer cancelled\n"

abbrev pub msg_reset_ok : List ℕ
msg_reset_ok = codes "OK:Transfer reset\n"

abbrev pub err_cannot_establish_priority : List ℕ
err_cannot_establish_priority = codes "ERROR:Cannot establish priority connection\n"

abbrev pub err_invalid_filename : List ℕ
err_invalid_filename = codes "ERROR:Invalid filename\n"

abbrev pub err_file_not_found : List ℕ
err_file_not_found = codes "ERROR:File not found\n"

abbrev pub err_cannot_determine_size : List ℕ
err_cannot_determine_size = codes "ERROR:Cannot determine file size\n"

abbrev pub slash : ℕ
slash = b'/'

abbrev pub dot : ℕ
dot = b'.'

abbrev pub newline : ℕ
newline = 10

-- The string in a buffer: the bytes in front of the first NUL.
unfoldable pub c_string : List ℕ → List ℕ
c_string [] = []
c_string (c ∷ cs) = let rest = c_string cs in if c == 0 then [] else c ∷ rest

-- strncmp(text, prefix, strlen(prefix)) == 0
unfoldable pub has_prefix : List ℕ → List ℕ → Bool
has_prefix [] text = true
has_prefix (c ∷ cs) [] = false
has_prefix (c ∷ cs) (d ∷ ds) = c == d && has_prefix cs ds

-- strstr(filename, "..") != NULL
unfoldable pub has_dots : List ℕ → Bool
has_dots [] = false
has_dots (c ∷ []) = false
has_dots (c ∷ d ∷ cs) = (c == dot && d == dot) || has_dots (d ∷ cs)

-- The first byte is `c`.
unfoldable pub starts : ℕ → List ℕ → Bool
starts c [] = false
starts c (d ∷ ds) = c == d

-- validate_filename() of a string
unfoldable pub validate_filename : List ℕ → Bool
unfolding has_dots starts
validate_filename filename =
    if length filename == 0
    then false
    else if has_dots filename
    then false
    else if starts slash filename
    then false
    else if starts dot filename
    then false
    else if ltb max_filename_len (length filename)
    then false
    else true

-- The bytes at the front that pass a test, at most `n`, and the rest: a conversion of sscanf().
unfoldable pub span : (n : ℕ) → (ℕ → Bool) → List ℕ → List ℕ × List ℕ
span zero passes text = ([], text)
span (suc n) passes [] = ([], [])
span (suc n) passes (c ∷ cs) =
    let (front, rest) = span n passes cs in if passes c then (c ∷ front, rest) else ([], c ∷ cs)

-- "%15s" behind the cookie
unfoldable pub parse_port : List ℕ → List ℕ → Option (List ℕ × List ℕ)
unfolding span skip_spaces
parse_port cookie [] = none
parse_port cookie (c ∷ rest) =
    let (port_str, end) = span 15 (λ x. not (is_space x)) (skip_spaces rest) in
    if not (c == b':') || length port_str == 0 then none else some (cookie, port_str)

-- parse_connect_command(): the cookie and the port
unfoldable pub parse_connect_command : List ℕ → Option (List ℕ × List ℕ)
unfolding has_prefix span parse_port
parse_connect_command message =
    let (cookie, rest) = span 63 (λ x. not (x == b':')) (drop (length cmd_connect) message) in
    if not (has_prefix cmd_connect message) || length cookie == 0
    then none
    else parse_port cookie rest

-- htons(atoi(text)), a uint16_t, of a text without spaces in front
unfoldable pub port_of : List ℕ → ℕ
unfolding scan
port_of [] = 0
port_of (c ∷ cs) =
    if c == b'-'
    then (65536 - scan cs 0 % 65536) % 65536
    else if c == b'+'
    then scan cs 0 % 65536
    else scan (c ∷ cs) 0 % 65536
