-- ===== src/Pftp/Files.antt =====
-- The files that chapter_61/pftp_server.c opens and closes.
use tlpi_solutions.Common.{
  ℕ, ◌≡◌, ◌≢◌, ◌⊎◌, refl, ◌∙◌, ap, sym, subst, Bool, false, Option, none, some, List, [], ◌∷◌, ◌++◌,
  ◌==◌, if◌then◌else◌, arith, length, drop, bytes_eq, Bool-cases, Option-cases, inl, inr,
}
use mathlib.Core.List.{append_assoc, append-nil}
use tlpi_solutions.Pftp.{
  cmd_connect, cmd_transfer, cmd_reset, has_prefix, parse_connect_command, port_of,
  validate_filename,
}
use tlpi_solutions.Pftp.Server.{
  File, Server, Effect, closes, connects, sends, fopens, fcloses, Env, close_any, fclose_any,
  filepath, then_do, handle_new_connection, refuse_connect, handle_connect_command,
  handle_transfer_command, handle_normal_data, reset_transfer, handle_priority_data,
  continue_file_transfer, Inputs, normal_round, priority_round, ready_round, idle_round, Round,
  active, idle, round, run, received_string, start,
}
use tlpi_solutions.Pftp.Connected.{run-IsConnected}

-- The paths that the effects open, and those that they close, in order.
unfoldable pub opened_paths : List Effect → List (List ℕ)
opened_paths [] = []
opened_paths (closes fd ∷ es) = opened_paths es
opened_paths (connects port ∷ es) = opened_paths es
opened_paths (sends fd bytes ∷ es) = opened_paths es
opened_paths (fopens path ∷ es) = path ∷ opened_paths es
opened_paths (fcloses path ∷ es) = opened_paths es

unfoldable pub closed_paths : List Effect → List (List ℕ)
closed_paths [] = []
closed_paths (closes fd ∷ es) = closed_paths es
closed_paths (connects port ∷ es) = closed_paths es
closed_paths (sends fd bytes ∷ es) = closed_paths es
closed_paths (fopens path ∷ es) = closed_paths es
closed_paths (fcloses path ∷ es) = path ∷ closed_paths es

-- The path of transfer_file.
abbrev pub held : Option File → List (List ℕ)
held none = []
held (some f) = f.path ∷ []

opened_paths-append :
    (xs ys : List Effect) → opened_paths (xs ++ ys) ≡ opened_paths xs ++ opened_paths ys
unfolding opened_paths
opened_paths-append [] ys = refl
opened_paths-append (closes fd ∷ xs) ys = opened_paths-append xs ys
opened_paths-append (connects port ∷ xs) ys = opened_paths-append xs ys
opened_paths-append (sends fd bytes ∷ xs) ys = opened_paths-append xs ys
opened_paths-append (fopens path ∷ xs) ys = ap (λ l. path ∷ l) (opened_paths-append xs ys)
opened_paths-append (fcloses path ∷ xs) ys = opened_paths-append xs ys

closed_paths-append :
    (xs ys : List Effect) → closed_paths (xs ++ ys) ≡ closed_paths xs ++ closed_paths ys
unfolding closed_paths
closed_paths-append [] ys = refl
closed_paths-append (closes fd ∷ xs) ys = closed_paths-append xs ys
closed_paths-append (connects port ∷ xs) ys = closed_paths-append xs ys
closed_paths-append (sends fd bytes ∷ xs) ys = closed_paths-append xs ys
closed_paths-append (fopens path ∷ xs) ys = closed_paths-append xs ys
closed_paths-append (fcloses path ∷ xs) ys = ap (λ l. path ∷ l) (closed_paths-append xs ys)

-- What was held and what was opened is what was closed and what is held.
abbrev Balanced : Option File → Server × List Effect → Type 0
Balanced before (s, es) = held before ++ opened_paths es ≡ closed_paths es ++ held s.transfer_file

then_do-Balanced :
    (before : Option File) (first : Server × List Effect) (next : Server → Server × List Effect)
    → Balanced before first
    → Balanced first.0.transfer_file (next first.0)
    → Balanced before (then_do first next)
then_do-Balanced before (s, es) next a b =
    let fs = (next s).1 in
    ap (λ l. held before ++ l) (opened_paths-append es fs)
    ∙ sym (append_assoc (held before) (opened_paths es) (opened_paths fs))
    ∙ ap (λ l. l ++ opened_paths fs) a
    ∙ append_assoc (closed_paths es) (held s.transfer_file) (opened_paths fs)
    ∙ ap (λ l. closed_paths es ++ l) b
    ∙ sym (append_assoc (closed_paths es) (closed_paths fs) (held (next s).0.transfer_file))
    ∙ ap (λ l. l ++ held (next s).0.transfer_file) (sym (closed_paths-append es fs))

-- Effects on no file.
same-Balanced :
    (before : Option File) (s : Server) (es : List Effect)
    → s.transfer_file ≡ before
    → opened_paths es ≡ []
    → closed_paths es ≡ []
    → Balanced before (s, es)
same-Balanced before s es e o c = rw (o, c, e) (append-nil (held before))

close_any-opened_paths :
    (o : Option ℕ) (es : List Effect) → opened_paths (close_any o ++ es) ≡ opened_paths es
unfolding opened_paths
close_any-opened_paths none es = refl
close_any-opened_paths (some fd) es = refl

close_any-closed_paths :
    (o : Option ℕ) (es : List Effect) → closed_paths (close_any o ++ es) ≡ closed_paths es
unfolding closed_paths
close_any-closed_paths none es = refl
close_any-closed_paths (some fd) es = refl

new_connection-Balanced :
    (env : Env) (s : Server) → Balanced s.transfer_file (handle_new_connection env s)
unfolding handle_new_connection opened_paths closed_paths
new_connection-Balanced env s = elim (Option-cases s.normal_fd) [
  | inl e ↦ rw (e, handle_new_connection) (append-nil (held s.transfer_file))
  | inr (fd, e) ↦
      rw (e, handle_new_connection)
        (same-Balanced s.transfer_file s (close_any env.accepted) refl
          (elim (Option-cases env.accepted) [ inl a ↦ rw a refl | inr (x, a) ↦ rw a refl ])
          (elim (Option-cases env.accepted) [ inl a ↦ rw a refl | inr (x, a) ↦ rw a refl ]))
]

refuse-Balanced :
    (env : Env) (fd port : ℕ) (s : Server) → Balanced s.transfer_file (refuse_connect env fd port s)
unfolding refuse_connect opened_paths closed_paths
refuse-Balanced env fd port s =
    same-Balanced s.transfer_file (record s { priority_fd = none })
      (connects port ∷ (close_any env.socket ++ sends fd _ ∷ [])) refl
      (close_any-opened_paths env.socket (sends fd _ ∷ []))
      (close_any-closed_paths env.socket (sends fd _ ∷ []))

connect-Balanced :
    (env : Env) (fd : ℕ) (buffer : List ℕ) (s : Server)
    → Balanced s.transfer_file (handle_connect_command env fd buffer s)
unfolding handle_connect_command opened_paths closed_paths
connect-Balanced env fd buffer s = elim (Option-cases (parse_connect_command buffer)) [
  | inl e ↦ rw (e, handle_connect_command) (append-nil (held s.transfer_file))
  | inr ((cookie, port_str), e) ↦ elim (Option-cases env.socket) [
    | inl f ↦
        rw (e, handle_connect_command, f)
          (refuse-Balanced env fd (port_of port_str)
            (record s { cookie = cookie; priority_fd = none }))
    | inr (priority, f) ↦ elim (Bool-cases env.connected) [
      | inl g ↦ rw (e, handle_connect_command, f, g) (append-nil (held s.transfer_file))
      | inr g ↦
          rw (e, handle_connect_command, f, g)
            (refuse-Balanced env fd (port_of port_str)
              (record s { cookie = cookie; priority_fd = some priority }))
    ]
  ]
]

-- A transfer is asked for while none is under way.
transfer-Balanced :
    (env : Env) (fd : ℕ) (name : List ℕ) (s : Server)
    → s.transfer_file ≡ none
    → Balanced s.transfer_file (handle_transfer_command env fd name s)
unfolding handle_transfer_command opened_paths closed_paths
transfer-Balanced env fd name s e = elim (Bool-cases (validate_filename name)) [
  | inr v ↦ rw (v, handle_transfer_command) (append-nil (held s.transfer_file))
  | inl v ↦ elim (Option-cases (env.content (filepath name))) [
    | inl c ↦ rw (v, handle_transfer_command, c, e) refl
    | inr (content, c) ↦ elim (Bool-cases env.stats) [
      | inl t ↦ rw (v, handle_transfer_command, c, t, e) refl
      | inr t ↦ rw (v, handle_transfer_command, c, t, e) refl
    ]
  ]
]

-- Bytes that ask for a transfer.
unfoldable pub asks : Option (List ℕ) → Bool
unfolding received_string has_prefix
asks none = false
asks (some bytes) = has_prefix cmd_transfer (received_string bytes)

normal_data-Balanced :
    (env : Env) (fd : ℕ) (input : Option (List ℕ)) (s : Server)
    → (asks input ≡ false) ⊎ (s.transfer_file ≡ none)
    → Balanced s.transfer_file (handle_normal_data env fd input s)
unfolding handle_normal_data opened_paths closed_paths asks
normal_data-Balanced env fd none s a =
    rw
      (
        close_any-opened_paths s.priority_fd (fclose_any s.transfer_file),
        close_any-closed_paths s.priority_fd (fclose_any s.transfer_file),
      )
      (elim (Option-cases s.transfer_file) [ inl f ↦ rw f refl | inr (file, f) ↦ rw f refl ])
normal_data-Balanced env fd (some bytes) s a =
    let buffer = received_string bytes in
    elim (Bool-cases (has_prefix cmd_connect buffer)) [
      | inl x ↦ rw x (connect-Balanced env fd buffer s)
      | inr x ↦ elim (Bool-cases (has_prefix cmd_transfer buffer)) [
        | inl y ↦
            rw (x, y)
              (transfer-Balanced env fd (drop (length cmd_transfer) buffer) s
                (ground (arith, a, y)))
        | inr y ↦ rw (x, y) (append-nil (held s.transfer_file))
      ]
    ]

priority_data-Balanced :
    (priority : ℕ) (input : Option (List ℕ)) (s : Server)
    → Balanced s.transfer_file (handle_priority_data priority input s)
unfolding handle_priority_data reset_transfer opened_paths closed_paths
priority_data-Balanced priority none s = append-nil (held s.transfer_file)
priority_data-Balanced priority (some bytes) s =
    elim (Bool-cases (bytes_eq (received_string bytes) cmd_reset)) [
      | inr e ↦ rw e (append-nil (held s.transfer_file))
      | inl e ↦ elim (Option-cases s.transfer_file) [
        | inl f ↦ rw (e, f, reset_transfer, f) refl
        | inr (file, f) ↦ elim (Option-cases s.normal_fd) [
          | inl n ↦ rw (e, f, reset_transfer, n) refl
          | inr (fd, n) ↦ rw (e, f, reset_transfer, n) refl
        ]
      ]
    ]

idle-Balanced : (s : Server) → Balanced s.transfer_file (idle_round s)
unfolding idle_round continue_file_transfer opened_paths closed_paths
idle-Balanced s = elim (Option-cases s.transfer_file) [
  | inl f ↦ rw (f, idle_round, f) refl
  | inr (file, f) ↦ elim (Bool-cases (length file.rest == 0)) [
    | inl x ↦ rw (f, idle_round, x) refl
    | inr x ↦ elim (Option-cases s.normal_fd) [
      | inl n ↦ rw (f, idle_round, x, n) refl
      | inr (fd, n) ↦ rw (f, idle_round, x, n) refl
    ]
  ]
]

-- The connection's bytes in a round.
abbrev on_connection : Round → Option (List ℕ)
on_connection (active i) = i.on_normal
on_connection idle = none

then_any-Balanced :
    (i : Inputs) (s : Server)
    → Balanced s.transfer_file (if i.server_ready then handle_new_connection i.env s else (s, []))
unfolding opened_paths closed_paths
then_any-Balanced i s = elim (Bool-cases i.server_ready) [
  | inl e ↦ rw e (new_connection-Balanced i.env s)
  | inr e ↦ rw e (append-nil (held s.transfer_file))
]

new_connection-transfer :
    (i : Inputs) (s : Server)
    → (if i.server_ready then handle_new_connection i.env s else (s, [])).0.transfer_file
      ≡ s.transfer_file
unfolding handle_new_connection
new_connection-transfer i s = ground arith

normal_round-Balanced :
    (i : Inputs) (s : Server)
    → (asks i.on_normal ≡ false) ⊎ (s.transfer_file ≡ none)
    → Balanced s.transfer_file (normal_round i s)
unfolding normal_round opened_paths closed_paths
normal_round-Balanced i s a = elim (Option-cases s.normal_fd) [
  | inl e ↦ rw (e, normal_round) (append-nil (held s.transfer_file))
  | inr (fd, e) ↦ elim (Bool-cases (i.ready fd)) [
    | inl x ↦ rw (e, normal_round, x) (normal_data-Balanced i.env fd i.on_normal s a)
    | inr x ↦ rw (e, normal_round, x) (append-nil (held s.transfer_file))
  ]
]

priority_round-Balanced : (i : Inputs) (s : Server) → Balanced s.transfer_file (priority_round i s)
unfolding priority_round opened_paths closed_paths
priority_round-Balanced i s = elim (Option-cases s.priority_fd) [
  | inl e ↦ rw (e, priority_round) (append-nil (held s.transfer_file))
  | inr (fd, e) ↦ elim (Bool-cases (i.ready fd)) [
    | inl x ↦ rw (e, priority_round, x) (priority_data-Balanced fd i.on_priority s)
    | inr x ↦ rw (e, priority_round, x) (append-nil (held s.transfer_file))
  ]
]

round-Balanced :
    (r : Round) (s : Server)
    → (asks (on_connection r) ≡ false) ⊎ (s.transfer_file ≡ none)
    → Balanced s.transfer_file (round r s)
unfolding round ready_round
round-Balanced (active i) s a =
    let first : Server × List Effect =
      if i.server_ready then handle_new_connection i.env s else (s, []) in
    then_do-Balanced s.transfer_file (then_do first (normal_round i)) (priority_round i)
      (then_do-Balanced s.transfer_file first (normal_round i) (then_any-Balanced i s) (
        normal_round-Balanced i first.0 (
          subst (λ t. (asks i.on_normal ≡ false) ⊎ (t ≡ none)) (sym (new_connection-transfer i s))
            a)))
      (priority_round-Balanced i (then_do first (normal_round i)).0)
round-Balanced idle s a = idle-Balanced s

-- In each round the client's connection asks for no transfer, or none is under way.
unfoldable pub OneAtATime : List Round → Server → Type 0
unfolding asks round
OneAtATime [] s = Unit {0}
OneAtATime (r ∷ rs) s =
    ((asks (on_connection r) ≡ false) ⊎ (s.transfer_file ≡ none)) × OneAtATime rs (round r s).0

run-Balanced :
    (rs : List Round) (s : Server) → OneAtATime rs s → Balanced s.transfer_file (run rs s)
unfolding run OneAtATime opened_paths closed_paths
run-Balanced [] s a = append-nil (held s.transfer_file)
run-Balanced (r ∷ rs) s a =
    then_do-Balanced s.transfer_file (round r s) (run rs) (round-Balanced r s a.0)
      (run-Balanced rs (round r s).0 a.1)

-- In a run in which no client asks for a transfer while one is under way: the files that the
-- server has opened are those that it has closed, in that order, and then the one of
-- transfer_file, if there is one. So when no client is connected, every file that was opened has
-- been closed, whether its transfer came to the end, a RESET cancelled it or the client left.
pub run-closes :
    (rs : List Round)
    → OneAtATime rs start
    → (opened_paths (run rs start).1
        ≡ closed_paths (run rs start).1 ++ held (run rs start).0.transfer_file)
      × (((run rs start).0.normal_fd ≢ none)
          ⊎ (opened_paths (run rs start).1 ≡ closed_paths (run rs start).1))
run-closes rs a =
    let all = run-Balanced rs start a in
    (
      all,
      elim (run-IsConnected rs) [
        | inl (fd, e) ↦ inl (λ n. ground (arith, n, e))
        | inr (p, t) ↦ inr (
            all
            ∙ ap (λ f. closed_paths (run rs start).1 ++ held f) t
            ∙ append-nil (closed_paths (run rs start).1))
      ],
    )
