-- ===== src/Pftp/Inside.antt =====
-- The files that chapter_61/pftp_server.c opens, by validate_filename() of pftp_common.c.
use tlpi_solutions.Common.{
  ℕ, Option, none, some, List, [], ◌∷◌, ◌++◌, ◌==◌, if◌then◌else◌, length, drop, bytes_eq,
  Bool-cases, Option-cases, inl, inr,
}
use tlpi_solutions.Pftp.{
  validate_filename, cmd_connect, cmd_transfer, has_prefix, parse_connect_command, port_of,
  cmd_reset,
}
use tlpi_solutions.Pftp.Server.{
  File, Server, Effect, closes, connects, sends, fopens, fcloses, Env, close_any, fclose_any,
  filepath, handle_new_connection, refuse_connect, handle_connect_command, handle_transfer_command,
  handle_normal_data, reset_transfer, handle_priority_data, continue_file_transfer, normal_round,
  priority_round, ready_round, idle_round, Round, active, idle, round, run, received_string,
}
use tlpi_solutions.Pftp.Paths.{IsInside, validate_filename-IsInside}

-- Every file that the effects open is in the directory.
abbrev pub OpensInside : List Effect → Type 0
OpensInside [] = Unit {0}
OpensInside (closes fd ∷ effects) = OpensInside effects
OpensInside (connects port ∷ effects) = OpensInside effects
OpensInside (sends fd bytes ∷ effects) = OpensInside effects
OpensInside (fopens path ∷ effects) = IsInside path × OpensInside effects
OpensInside (fcloses path ∷ effects) = OpensInside effects

OpensInside-append :
    (xs ys : List Effect) → OpensInside xs → OpensInside ys → OpensInside (xs ++ ys)
OpensInside-append [] ys a b = b
OpensInside-append (closes fd ∷ xs) ys a b = OpensInside-append xs ys a b
OpensInside-append (connects port ∷ xs) ys a b = OpensInside-append xs ys a b
OpensInside-append (sends fd bytes ∷ xs) ys a b = OpensInside-append xs ys a b
OpensInside-append (fopens path ∷ xs) ys a b = (a.0, OpensInside-append xs ys a.1 b)
OpensInside-append (fcloses path ∷ xs) ys a b = OpensInside-append xs ys a b

close_any-OpensInside : (o : Option ℕ) → OpensInside (close_any o)
close_any-OpensInside none = tt
close_any-OpensInside (some fd) = tt

fclose_any-OpensInside : (o : Option File) → OpensInside (fclose_any o)
fclose_any-OpensInside none = tt
fclose_any-OpensInside (some f) = tt

new_connection-OpensInside : (env : Env) (s : Server) → OpensInside (handle_new_connection env s).1
unfolding handle_new_connection
new_connection-OpensInside env s = elim (Option-cases s.normal_fd) [
  | inl e ↦ rw (e, handle_new_connection) tt
  | inr (fd, e) ↦ rw (e, handle_new_connection) (close_any-OpensInside env.accepted)
]

refuse-OpensInside :
    (env : Env) (fd port : ℕ) (s : Server) → OpensInside (refuse_connect env fd port s).1
unfolding refuse_connect
refuse-OpensInside env fd port s =
    OpensInside-append (close_any env.socket) _ (close_any-OpensInside env.socket) tt

connect-OpensInside :
    (env : Env) (fd : ℕ) (buffer : List ℕ) (s : Server)
    → OpensInside (handle_connect_command env fd buffer s).1
unfolding handle_connect_command refuse_connect
connect-OpensInside env fd buffer s = elim (Option-cases (parse_connect_command buffer)) [
  | inl e ↦ rw (e, handle_connect_command) tt
  | inr ((cookie, port_str), e) ↦ elim (Option-cases env.socket) [
    | inl f ↦ rw (e, handle_connect_command, f) (refuse-OpensInside env fd (port_of port_str) s)
    | inr (priority, f) ↦ elim (Bool-cases env.connected) [
      | inl g ↦ rw (e, handle_connect_command, f, g) tt
      | inr g ↦
          rw (e, handle_connect_command, f, g) (refuse-OpensInside env fd (port_of port_str) s)
    ]
  ]
]

transfer-OpensInside :
    (env : Env) (fd : ℕ) (filename : List ℕ) (s : Server)
    → OpensInside (handle_transfer_command env fd filename s).1
unfolding handle_transfer_command
transfer-OpensInside env fd filename s = elim (Bool-cases (validate_filename filename)) [
  | inr e ↦ rw (e, handle_transfer_command) tt
  | inl e ↦
      let inside = validate_filename-IsInside filename e in
      elim (Option-cases (env.content (filepath filename))) [
        | inl f ↦ rw (e, handle_transfer_command, f) tt
        | inr (content, f) ↦ elim (Bool-cases env.stats) [
          | inl g ↦ rw (e, handle_transfer_command, f, g) (inside, tt)
          | inr g ↦ rw (e, handle_transfer_command, f, g) (inside, tt)
        ]
      ]
]

normal_data-OpensInside :
    (env : Env) (fd : ℕ) (input : Option (List ℕ)) (s : Server)
    → OpensInside (handle_normal_data env fd input s).1
unfolding handle_normal_data
normal_data-OpensInside env fd none s =
    OpensInside-append (close_any s.priority_fd) _ (close_any-OpensInside s.priority_fd)
      (fclose_any-OpensInside s.transfer_file)
normal_data-OpensInside env fd (some bytes) s =
    let buffer = received_string bytes in
    elim (Bool-cases (has_prefix cmd_connect buffer)) [
      | inl e ↦ rw e (connect-OpensInside env fd buffer s)
      | inr e ↦ elim (Bool-cases (has_prefix cmd_transfer buffer)) [
        | inl f ↦ rw (e, f) (transfer-OpensInside env fd (drop (length cmd_transfer) buffer) s)
        | inr f ↦ rw (e, f) tt
      ]
    ]

reset-OpensInside : (priority : ℕ) (s : Server) → OpensInside (reset_transfer priority s).1
unfolding reset_transfer
reset-OpensInside priority s = elim (Option-cases s.transfer_file) [
  | inl e ↦ rw (e, reset_transfer) tt
  | inr (f, e) ↦ elim (Option-cases s.normal_fd) [
    | inl n ↦ rw (e, reset_transfer, n) tt
    | inr (fd, n) ↦ rw (e, reset_transfer, n) tt
  ]
]

priority_data-OpensInside :
    (priority : ℕ) (input : Option (List ℕ)) (s : Server)
    → OpensInside (handle_priority_data priority input s).1
unfolding handle_priority_data
priority_data-OpensInside priority none s = tt
priority_data-OpensInside priority (some bytes) s =
    elim (Bool-cases (bytes_eq (received_string bytes) cmd_reset)) [
      | inl e ↦ rw e (reset-OpensInside priority s)
      | inr e ↦ rw e tt
    ]

continue-OpensInside : (f : File) (s : Server) → OpensInside (continue_file_transfer f s).1
unfolding continue_file_transfer
continue-OpensInside f s = elim (Bool-cases (length f.rest == 0)) [
  | inl e ↦ rw e tt
  | inr e ↦ elim (Option-cases s.normal_fd) [ inl n ↦ rw (e, n) tt | inr (fd, n) ↦ rw (e, n) tt ]
]

round-OpensInside : (r : Round) (s : Server) → OpensInside (round r s).1
unfolding round ready_round normal_round priority_round idle_round
round-OpensInside (active i) s =
    let first : Server × List Effect =
      if i.server_ready then handle_new_connection i.env s else (s, []) in
    let second = normal_round i first.0 in
    OpensInside-append (first.1 ++ second.1) (priority_round i second.0).1
      (OpensInside-append first.1 second.1
        (elim (Bool-cases i.server_ready) [
          | inl e ↦ rw e (new_connection-OpensInside i.env s)
          | inr e ↦ rw e tt
        ])
        (elim (Option-cases first.0.normal_fd) [
          | inl e ↦ rw (e, normal_round) tt
          | inr (fd, e) ↦ elim (Bool-cases (i.ready fd)) [
            | inl x ↦ rw (e, normal_round, x) (normal_data-OpensInside i.env fd i.on_normal first.0)
            | inr x ↦ rw (e, normal_round, x) tt
          ]
        ]))
      (elim (Option-cases second.0.priority_fd) [
        | inl e ↦ rw (e, priority_round) tt
        | inr (fd, e) ↦ elim (Bool-cases (i.ready fd)) [
          | inl x ↦ rw (e, priority_round, x) (priority_data-OpensInside fd i.on_priority second.0)
          | inr x ↦ rw (e, priority_round, x) tt
        ]
      ])
round-OpensInside idle s = elim (Option-cases s.transfer_file) [
  | inl e ↦ rw (e, idle_round) tt
  | inr (f, e) ↦ rw (e, idle_round) (continue-OpensInside f s)
]

-- Whatever clients connect and whatever they send: every file that the server opens is `files/`
-- followed by a name, and a walk along the components of the name never leaves that directory
-- upwards.
pub run-OpensInside : (rs : List Round) (s : Server) → OpensInside (run rs s).1
unfolding run
run-OpensInside [] s = tt
run-OpensInside (r ∷ rs) s =
    OpensInside-append (round r s).1 (run rs (round r s).0).1 (round-OpensInside r s)
      (run-OpensInside rs (round r s).0)
