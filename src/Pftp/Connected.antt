-- ===== src/Pftp/Connected.antt =====
-- The client and the transfer of chapter_61/pftp_server.c.
use tlpi_solutions.Common.{
  ℕ, ◌≡◌, ◌⊎◌, refl, ◌∙◌, Option, none, some, List, [], ◌∷◌, ◌==◌, if◌then◌else◌, arith, length,
  drop, Bool-cases, Option-cases, inl, inr,
}
use tlpi_solutions.Pftp.{cmd_connect, cmd_transfer, has_prefix, parse_connect_command}
use tlpi_solutions.Pftp.Server.{
  Server, Effect, Env, handle_new_connection, refuse_connect, handle_connect_command,
  handle_transfer_command, handle_normal_data, reset_transfer, handle_priority_data,
  continue_file_transfer, normal_round, priority_round, ready_round, idle_round, Round, active,
  idle, round, run, received_string, start,
}

-- There is a client, or neither a priority connection nor a transfer.
abbrev pub IsConnected : Server → Type 0
IsConnected s =
    ((fd : ℕ) × (s.normal_fd ≡ some fd)) ⊎ ((s.priority_fd ≡ none) × (s.transfer_file ≡ none))

-- A handler leaves the client's connection.
abbrev SameClient : Server → Server → Type 0
SameClient s s' = s'.normal_fd ≡ s.normal_fd

connect-same :
    (env : Env) (fd : ℕ) (buffer : List ℕ) (s : Server)
    → SameClient s (handle_connect_command env fd buffer s).0
unfolding handle_connect_command refuse_connect
connect-same env fd buffer s = elim (Option-cases (parse_connect_command buffer)) [
  | inl e ↦ rw (e, handle_connect_command) refl
  | inr (parsed, e) ↦ elim (Option-cases env.socket) [
    | inl f ↦ rw (e, handle_connect_command, f) refl
    | inr (priority, f) ↦ elim (Bool-cases env.connected) [
      | inl g ↦ rw (e, handle_connect_command, f, g) refl
      | inr g ↦ rw (e, handle_connect_command, f, g) refl
    ]
  ]
]

transfer-same :
    (env : Env) (fd : ℕ) (name : List ℕ) (s : Server)
    → SameClient s (handle_transfer_command env fd name s).0
unfolding handle_transfer_command
transfer-same env fd name s = ground arith

new_connection-IsConnected :
    (env : Env) (s : Server) → IsConnected s → IsConnected (handle_new_connection env s).0
unfolding handle_new_connection
new_connection-IsConnected env s c = ground (arith, c)

normal_data-IsConnected :
    (env : Env) (fd : ℕ) (input : Option (List ℕ)) (s : Server)
    → s.normal_fd ≡ some fd
    → IsConnected (handle_normal_data env fd input s).0
unfolding handle_normal_data
normal_data-IsConnected env fd none s e = inr (refl, refl)
normal_data-IsConnected env fd (some bytes) s e =
    let buffer = received_string bytes in
    elim (Bool-cases (has_prefix cmd_connect buffer)) [
      | inl x ↦ rw x (inl (fd, connect-same env fd buffer s ∙ e))
      | inr x ↦ elim (Bool-cases (has_prefix cmd_transfer buffer)) [
        | inl y ↦
            rw (x, y) (inl (fd, transfer-same env fd (drop (length cmd_transfer) buffer) s ∙ e))
        | inr y ↦ rw (x, y) (inl (fd, e))
      ]
    ]

priority_data-IsConnected :
    (priority : ℕ) (input : Option (List ℕ)) (s : Server)
    → IsConnected s
    → IsConnected (handle_priority_data priority input s).0
unfolding handle_priority_data reset_transfer
priority_data-IsConnected priority none s c = ground (arith, c)
priority_data-IsConnected priority (some bytes) s c = ground (arith, c)

idle-IsConnected : (s : Server) → IsConnected s → IsConnected (idle_round s).0
unfolding idle_round continue_file_transfer
idle-IsConnected s c = elim (Option-cases s.transfer_file) [
  | inl e ↦ rw (e, idle_round) c
  | inr (f, e) ↦ elim c [
    | inl (fd, n) ↦ elim (Bool-cases (length f.rest == 0)) [
      | inl x ↦ rw (e, idle_round, x) (inl (fd, n))
      | inr x ↦ rw (e, idle_round, x) (inl (fd, n))
    ]
    | inr (p, t) ↦ absurd (ground (arith, e, t))
  ]
]

pub round-IsConnected : (r : Round) (s : Server) → IsConnected s → IsConnected (round r s).0
unfolding round ready_round normal_round priority_round
round-IsConnected (active i) s c =
    let first : Server × List Effect =
      if i.server_ready then handle_new_connection i.env s else (s, []) in
    let second = normal_round i first.0 in
    let c1 : IsConnected first.0 = elim (Bool-cases i.server_ready) [
      | inl e ↦ rw e (new_connection-IsConnected i.env s c)
      | inr e ↦ rw e c
    ] in
    let c2 : IsConnected second.0 = elim (Option-cases first.0.normal_fd) [
      | inl e ↦ rw (e, normal_round) c1
      | inr (fd, e) ↦ elim (Bool-cases (i.ready fd)) [
        | inl x ↦ rw (e, normal_round, x) (normal_data-IsConnected i.env fd i.on_normal first.0 e)
        | inr x ↦ rw (e, normal_round, x) c1
      ]
    ] in
    elim (Option-cases second.0.priority_fd) [
      | inl e ↦ rw (e, priority_round) c2
      | inr (fd, e) ↦ elim (Bool-cases (i.ready fd)) [
        | inl x ↦ rw (e, priority_round, x) (priority_data-IsConnected fd i.on_priority second.0 c2)
        | inr x ↦ rw (e, priority_round, x) c2
      ]
    ]
round-IsConnected idle s c = idle-IsConnected s c

run_from-IsConnected : (rs : List Round) (s : Server) → IsConnected s → IsConnected (run rs s).0
unfolding run
run_from-IsConnected [] s c = c
run_from-IsConnected (r ∷ rs) s c = run_from-IsConnected rs (round r s).0 (round-IsConnected r s c)

-- Whatever clients connect and send: in every state that the server reaches, priority_fd and
-- transfer_file name a connection or a file only while normal_fd names the client, so that
-- continue_file_transfer() and a RESET always have a connection to send on.
pub run-IsConnected : (rs : List Round) → IsConnected (run rs start).0
run-IsConnected rs = run_from-IsConnected rs start (inr (refl, refl))
