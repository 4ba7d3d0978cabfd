-- ===== src/SeqNum/Limits.antt =====
-- The descriptors of chapter_44/fifo_seqnum_server_mod3.c.
use tlpi_solutions.Common.{
  ℕ, ◌+◌, ◌-◌, ◌%◌, ◌≤◌, ◌≡◌, refl, sym, ap, subst, true, false, Option, List, [], ◌∷◌, ltb, ◌&&◌,
  if◌then◌else◌, arith, length, length-append, Bool-cases, inl, inr,
}
use tlpi_solutions.SeqNum.{
  word, max_retries, Request, Range, Server, Saving, whole, nothing, part, save_seq, Opened,
  open_client, Event, discarded, request, serve, run, boot,
}
use tlpi_solutions.SeqNum.Sessions.{run_on, run_off}

-- A request that is answered.
served :
    (limit : ℕ) (req : Request) (opens : ℕ → Opened) (how : Saving) (s : Server)
    → ltb s.open_fds limit ≡ true
    → open_client max_retries 0 opens ≡ true
    → serve limit (request req opens how) s ≡ (
      save_seq limit how
          ((s.seq_num + req.seq_len) % word)
          (record s { seq_num = (s.seq_num + req.seq_len) % word }),
      (record { seq_num = s.seq_num; seq_len = req.seq_len }) ∷ [],
    )
unfolding serve
served limit req opens how s room e = rw (room, e) refl

unserved :
    (limit : ℕ) (req : Request) (opens : ℕ → Opened) (how : Saving) (s : Server)
    → (ltb s.open_fds limit && open_client max_retries 0 opens) ≡ false
    → serve limit (request req opens how) s ≡ (s, [])
unfolding serve
unserved limit req opens how s e = rw e refl

-- How many requests a server can still answer.
abbrev left : (limit : ℕ) → Server → ℕ
left limit s = if s.running then limit - s.open_fds else 0

save-left :
    (limit n : ℕ) (how : Saving) (s : Server)
    → ltb s.open_fds limit ≡ true
    → 1 + left limit (save_seq limit how n s) ≤ limit - s.open_fds
unfolding save_seq
save-left limit n whole s room = rw room (ground (arith, room))
save-left limit n nothing s room = rw room (ground (arith, room))
save-left limit n (part k) s room = rw room (ground (arith, room))

serve-left :
    (limit : ℕ) (e : Event) (s : Server)
    → s.running ≡ true
    → length (serve limit e s).1 + left limit (serve limit e s).0 ≤ left limit s
serve-left limit discarded s on = unfold serve in omega arith
serve-left limit (request req opens how) s on =
    let Good : Server × List Range → Type 0 = λ r. length r.1 + left limit r.0 ≤ left limit s in
    let all : left limit s ≡ limit - s.open_fds =
      ap (λ b. if b then limit - s.open_fds else 0) on in
    let skipped : Good (s, []) = omega arith in
    elim (Bool-cases (ltb s.open_fds limit)) [
      | inl room ↦ elim (Bool-cases (open_client max_retries 0 opens)) [
        | inl e ↦
            let next : ℕ = (s.seq_num + req.seq_len) % word in
            subst Good (sym (served limit req opens how s room e))
              (omega (arith, all, save-left limit next how (record s { seq_num = next }) room))
        | inr e ↦
            subst Good (sym (unserved limit req opens how s (ground (arith, room, e)))) skipped
      ]
      | inr full ↦ subst Good (sym (unserved limit req opens how s (ground (arith, full)))) skipped
    ]

run-left : (limit : ℕ) (es : List Event) (s : Server) → length (run limit es s).1 ≤ left limit s
run-left limit [] s = unfold run in omega arith
run-left limit (e ∷ es) s = elim (Bool-cases s.running) [
  | inl on ↦
      let first = serve-left limit e s on in
      let more = run-left limit es (serve limit e s).0 in
      let both = length-append (serve limit e s).1 (run limit es (serve limit e s).0).1 in
      subst (λ r. length r.1 ≤ left limit s) (sym (run_on limit e es s on))
        (omega (arith, first, more, both))
  | inr off ↦
      subst (λ r. length r.1 ≤ left limit s) (sym (run_off limit (e ∷ es) s off)) (omega arith)
]

-- Every request that is answered leaves a descriptor open: a server whose process can have `limit` of
-- them answers no more than that, less the six of its start, however long it runs.
pub answers_bounded :
    (limit : ℕ) (es : List Event) (seqfile : Option (List ℕ))
    → length (run limit es (boot seqfile)).1 ≤ limit - 6
answers_bounded limit es seqfile = unfold boot in run-left limit es (boot seqfile)
