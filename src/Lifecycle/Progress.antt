-- ===== src/Lifecycle/Progress.antt =====
-- That a transport's threads never wait for one another for ever, adbd/src/transport.c.
use stm32f429_adbd.Common.{
  ℕ, zero, suc, ◌+◌, ◌≤◌, ◌≡◌, refl, true, false, List, [], ◌∷◌, ◌==◌, ==_iff, arith, length,
  length-append, ◌*◌, ◌<◌, ap, ◌∙◌, ◌⊎◌, inl, inr, Bool-cases,
}
use stm32f429_adbd.Packet.{Packet, a_sync, stamp}
use stm32f429_adbd.Lifecycle.{
  Exit, kick_test, kick_lock, kick_call, unref, ended, OutputThread, starting, reading, posting,
  forwarding, output_exit, InputThread, listening, closing, input_exit, Core, Pump, Reach, Leave,
  test_kicked, test_open, lock_late, lock_first, kick, unref_more, unref_last, Work, works, later,
  announce_fails, forward_fails, post_fails, listen_fails, announce, receive, lose, forward, post,
  leave_output, hear_offline, hear_online, hear_stale, write_remote, close_sockets, leave_input,
  main_sync, main_packet, main_removes,
}
use stm32f429_adbd.Lifecycle.Invariant.{
  holds, has_left, output_stage, has_offline, IsSound, Reach-IsSound,
}

-- A next state with no failed write.
abbrev Moves : Pump → Type 0
Moves s = (u : Pump) × Work s u × (u.is_broken ≡ false)

-- A thread that holds a reference can take the next step of its exit.
leaves :
    (c : Core) (e : Exit)
    → holds e ≤ c.ref_count
    → (e ≡ ended) ⊎ ((c' : Core) × (e' : Exit) × Leave c e c' e')
leaves c kick_test h = elim (Bool-cases c.kicked) [
  | inl k ↦ inr (_, _, test_kicked k)
  | inr k ↦ inr (_, _, test_open k)
]
leaves c kick_lock h = elim (Bool-cases c.kicked) [
  | inl k ↦ inr (_, _, lock_late k)
  | inr k ↦ inr (_, _, lock_first k)
]
leaves c kick_call h = inr (_, _, kick)
leaves c unref h = give_up c.ref_count refl
  where
    give_up :
        (n : ℕ)
        → c.ref_count ≡ n
        → (unref ≡ ended) ⊎ ((c' : Core) × (e' : Exit) × Leave c unref c' e')
    give_up zero e = absurd (omega (arith, e, h))
    give_up (suc zero) e = inr (_, _, unref_last (omega (arith, e)))
    give_up (suc (suc n)) e = inr (_, _, unref_more n e)
leaves c ended h = inl refl

-- A step that the main thread can take on a packet in its pipe.
main_step :
    (s : Pump) (p : Packet) (rest : List Packet)
    → s.is_broken ≡ false
    → s.is_removed ≡ false
    → s.to_main ≡ p ∷ rest
    → Moves s
main_step s p rest w r q = elim (Bool-cases (p.command == a_sync)) [
  | inl c ↦ (_, main_sync p rest r q ((==_iff _ _).0 c), w)
  | inr c ↦ (_, main_packet p rest r q (ground (arith, c)), w)
]

input_step :
    (s : Pump) (p : Packet) (rest : List Packet)
    → s.is_broken ≡ false
    → s.input ≡ listening
    → s.to_input ≡ p ∷ rest
    → Moves s
input_step s p rest w l q = elim (Bool-cases (p.command == a_sync)) [
  | inr c ↦ (_, write_remote p rest l q (ground (arith, c)), w)
  | inl c ↦ elim (Bool-cases (p.arg0 == 0)) [
    | inl z ↦ (_, hear_offline p rest l q ((==_iff _ _).0 c) ((==_iff _ _).0 z), w)
    | inr z ↦ elim (Bool-cases (p.arg1 == s.sync_token)) [
      | inl t ↦
          (_, hear_online p rest l q ((==_iff _ _).0 c) (ground (arith, z)) ((==_iff _ _).0 t), w)
      | inr t ↦
          (_, hear_stale p rest l q ((==_iff _ _).0 c) (ground (arith, z)) (ground (arith, t)), w)
    ]
  ]
]

-- The input thread listens after the output thread has left: the news is in one of the pipes.
listening_step :
    (s : Pump) (e : Exit)
    → IsSound s
    → s.is_broken ≡ false
    → s.is_removed ≡ false
    → s.output ≡ output_exit e
    → s.input ≡ listening
    → Moves s
unfolding has_offline
listening_step s e i whole there o l = look s.to_input refl s.to_main refl
  where
    look : (xs : List Packet) → s.to_input ≡ xs → (ys : List Packet) → s.to_main ≡ ys → Moves s
    look (p ∷ xs) q ys m = input_step s p xs whole l q
    look [] q (p ∷ ys) m = main_step s p ys whole there m
    look [] q [] m = absurd (ground (arith, i.told, whole, o, l, q, m))

-- Until the atransport is freed, and if no write to the threads' pipes has failed, a thread can
-- take a step (a read from the remote end counts as one), or the main thread can on what it was
-- sent.
pub no_deadlock :
    (token : ℕ) (s : Pump)
    → Reach token s
    → s.is_broken ≡ false
    → s.is_removed ≡ false
    → (u : Pump) × Work s u × (u.is_broken ≡ false)
no_deadlock token s r whole there = by_output s.output refl
  where
    i : IsSound s
    i = Reach-IsSound r

    by_input : (b : InputThread) → s.input ≡ b → s.output ≡ output_exit ended → Moves s
    by_input listening l o = listening_step s ended i whole there o l
    by_input closing l o = (_, close_sockets l, whole)
    by_input (input_exit e) l o = elim (leaves s.core e (ground (arith, i.counted, l, o))) [
      | inr (c', e', leave) ↦ (_, leave_input e e' c' l leave, whole)
      | inl over ↦ (_, main_removes 0 (ground (arith, i.counted, l, o, over, there)), whole)
    ]

    by_output : (a : OutputThread) → s.output ≡ a → Moves s
    by_output starting o = (_, announce o, whole)
    by_output reading o = (_, lose o, whole)
    by_output posting o = (_, post o, whole)
    by_output (forwarding p) o = (_, forward p o, whole)
    by_output (output_exit e) o = elim (leaves s.core e (ground (arith, i.counted, o))) [
      | inr (c', e', leave) ↦ (_, leave_output e e' c' o leave, whole)
      | inl over ↦ by_input s.input refl (o ∙ ap output_exit over)
    ]

abbrev rank : Exit → ℕ
rank kick_test = 5
rank kick_lock = 4
rank kick_call = 3
rank unref = 2
rank ended = 0

abbrev input_rank : InputThread → ℕ
input_rank listening = 7
input_rank closing = 6
input_rank (input_exit e) = rank e

-- What is left to do once the output thread has left.
abbrev weight : Pump → ℕ
weight s =
    2 * length s.to_main
    + length s.to_input
    + rank (output_stage s.output)
    + input_rank s.input
    + s.core.removals

weight-Leave :
    {c c' : Core} {e e' : Exit} → Leave c e c' e' → rank e' + c'.removals < rank e + c.removals
weight-Leave (test_kicked h) = omega arith
weight-Leave (test_open h) = omega arith
weight-Leave (lock_late h) = omega arith
weight-Leave (lock_first h) = omega arith
weight-Leave kick = omega arith
weight-Leave (unref_more n h) = omega arith
weight-Leave (unref_last h) = omega arith

weight-Work :
    {s u : Pump}
    → Work s u
    → has_left s.output ≡ true
    → (weight u < weight s) × (has_left u.output ≡ true)
weight-Work (announce h) l = ground (arith, h, l)
weight-Work (announce_fails h) l = ground (arith, h, l)
weight-Work (receive p h) l = ground (arith, h, l)
weight-Work (lose h) l = ground (arith, h, l)
weight-Work (forward p h) l = ground (arith, h, l)
weight-Work (forward_fails p h) l = ground (arith, h, l)
weight-Work (post h) l = ground (arith, h, l)
weight-Work (post_fails h) l = ground (arith, h, l)
weight-Work (leave_output e e' c h leave) l = ground (arith, h, weight-Leave leave)
weight-Work (hear_offline p rest h q c z) l = ground (arith, h, q, l)
weight-Work (hear_online p rest h q c z t) l = ground (arith, h, q, l)
weight-Work (hear_stale p rest h q c z t) l = ground (arith, h, q, l)
weight-Work (write_remote p rest h q c) l = ground (arith, h, q, l)
weight-Work (listen_fails h) l = ground (arith, h, l)
weight-Work (close_sockets h) l = ground (arith, h, l)
weight-Work (leave_input e e' c h leave) l = ground (arith, h, l, weight-Leave leave)
weight-Work {s} (main_sync p rest r q c) l =
    ground (arith, q, l, length-append s.to_input (stamp p ∷ []))
weight-Work (main_packet p rest r q c) l = ground (arith, q, l)
weight-Work (main_removes n h) l = ground (arith, h, l)

-- A run of such steps.
pub data Works : Pump → Pump → Type 0 where
  none_left : {s : Pump} → Works s s
  then_works : {s t u : Pump} → Work s t → Works t u → Works s u

completes :
    (n token : ℕ) (s : Pump)
    → weight s < n
    → Reach token s
    → s.is_broken ≡ false
    → has_left s.output ≡ true
    → (u : Pump) × Works s u × (u.is_removed ≡ true)
completes zero token s lt r whole left = absurd (omega arith)
completes (suc n) token s lt r whole left = elim (Bool-cases s.is_removed) [
  | inl gone ↦ (s, none_left, gone)
  | inr there ↦
      let (t, w, whole') = no_deadlock token s r whole there in
      let (fewer, left') = weight-Work w left in
      let (u, ws, gone) =
        completes n token t (omega (arith, fewer, lt)) (later r (works w)) whole' left' in
      (u, then_works w ws, gone)
]

-- If the output thread has left and no write to the threads' pipes has failed, there is a run of
-- finitely many steps, of the threads and of the main thread on what it was sent, that frees the
-- transport.
pub shutdown_completes :
    (token : ℕ) (s : Pump)
    → Reach token s
    → s.is_broken ≡ false
    → has_left s.output ≡ true
    → (u : Pump) × Works s u × (u.is_removed ≡ true)
shutdown_completes token s = completes (suc (weight s)) token s (omega arith)
