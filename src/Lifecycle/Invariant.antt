-- ===== src/Lifecycle/Invariant.antt =====
-- The invariant of a transport's threads, adbd/src/transport.c.
use stm32f429_adbd.Common.{
  ℕ, ◌+◌, ◌≡◌, refl, Bool, true, false, not, ◌||◌, ◌&&◌, List, [], ◌∷◌, ◌++◌, ◌==◌, if◌then◌else◌,
  arith,
}
use stm32f429_adbd.Common.Words.{add32}
use stm32f429_adbd.Packet.{Packet, a_sync, stamp, get_apacket}
use stm32f429_adbd.Lifecycle.{
  Exit, kick_test, kick_call, unref, ended, OutputThread, output_exit, InputThread, listening,
  input_exit, Core, Pump, sync_packet, registered, Leave, test_kicked, test_open, lock_late,
  lock_first, kick, unref_more, unref_last, Work, announce, announce_fails, receive, lose, forward,
  forward_fails, post, post_fails, leave_output, hear_offline, hear_online, hear_stale,
  write_remote, listen_fails, close_sockets, leave_input, main_sync, main_packet, main_removes,
  works, main_sends, Reach, start, later,
}

-- The reference of a thread that has not given it up, and its kick that is still to come.
abbrev pub holds : Exit → ℕ
holds ended = 0
holds _ = 1

abbrev pub owes : Exit → ℕ
owes kick_call = 1
owes _ = 0

-- Whether the transport is kicked by the time that the thread is there.
abbrev pub has_kicked : Exit → Bool
has_kicked kick_call = true
has_kicked unref = true
has_kicked ended = true
has_kicked _ = false

-- A thread that has not begun to leave stands where its exit begins.
abbrev pub output_stage : OutputThread → Exit
output_stage (output_exit e) = e
output_stage _ = kick_test

abbrev pub input_stage : InputThread → Exit
input_stage (input_exit e) = e
input_stage _ = kick_test

-- The counts of the atransport agree with where the two threads stand.
pub record IsCounted (c : Core) (a b : Exit) (is_removed : Bool) : Type 0 where
  pub references : c.ref_count ≡ holds a + holds b
  pub kick_count : c.kicks + owes a + owes b ≡ (if c.kicked then 1 else 0)
  pub kicked_a : has_kicked a ≡ true → c.kicked ≡ true
  pub kicked_b : has_kicked b ≡ true → c.kicked ≡ true
  pub close_count : c.closes ≡ (if c.ref_count == 0 then 1 else 0)
  pub removal_count : c.removals + (if is_removed then 1 else 0) ≡ c.closes

Leave-IsCounted-left :
    (c c' : Core) (a a' b : Exit) (r : Bool)
    → Leave c a c' a'
    → IsCounted c a b r
    → IsCounted c' a' b r
Leave-IsCounted-left c c' a a' b r (test_kicked h) s = ground arith
Leave-IsCounted-left c c' a a' b r (test_open h) s = ground arith
Leave-IsCounted-left c c' a a' b r (lock_late h) s = ground arith
Leave-IsCounted-left c c' a a' b r (lock_first h) s = ground arith
Leave-IsCounted-left c c' a a' b r kick s = ground arith
Leave-IsCounted-left c c' a a' b r (unref_more n h) s = ground arith
Leave-IsCounted-left c c' a a' b r (unref_last h) s = ground arith

IsCounted-swap : (c : Core) (a b : Exit) (r : Bool) → IsCounted c a b r → IsCounted c b a r
IsCounted-swap c a b r s = record {
  references = omega (arith, s.references);
  kick_count = omega (arith, s.kick_count);
  kicked_a = s.kicked_b;
  kicked_b = s.kicked_a;
  close_count = s.close_count;
  removal_count = s.removal_count;
}

Leave-IsCounted-right :
    (c c' : Core) (a b b' : Exit) (r : Bool)
    → Leave c b c' b'
    → IsCounted c a b r
    → IsCounted c' a b' r
Leave-IsCounted-right c c' a b b' r l s =
    IsCounted-swap c' b' a r (Leave-IsCounted-left c c' b b' a r l (IsCounted-swap c a b r s))

abbrev pub is_offline : Packet → Bool
is_offline p = (p.command == a_sync) && (p.arg0 == 0)

unfoldable pub has_offline : List Packet → Bool
has_offline [] = false
has_offline (p ∷ ps) = is_offline p || has_offline ps

abbrev pub has_left : OutputThread → Bool
has_left (output_exit _) = true
has_left _ = false

abbrev pub has_stopped : InputThread → Bool
has_stopped listening = false
has_stopped _ = true

pub has_offline-append :
    (ps : List Packet) (p : Packet) → has_offline (ps ++ (p ∷ [])) ≡ has_offline ps || is_offline p
unfolding has_offline
has_offline-append [] p = ground arith
has_offline-append (q ∷ ps) p = ground (arith, has_offline-append ps p)

-- The counts agree, and once the output thread has left, the news is on its way or was heard.
pub record IsSound (s : Pump) : Type 0 where
  pub counted : IsCounted s.core (output_stage s.output) (input_stage s.input) s.is_removed
  pub told :
      (s.is_broken
        || (not (has_left s.output)
            || (has_offline s.to_main || (has_offline s.to_input || has_stopped s.input))))
      ≡ true

offline_stamp : (p : Packet) → is_offline (stamp p) ≡ is_offline p
unfolding stamp
offline_stamp p = refl

offline_sync : is_offline (sync_packet 0 0) ≡ true
unfolding sync_packet get_apacket
offline_sync = refl

registered-IsSound : (token : ℕ) → IsSound (registered token)
registered-IsSound token = ground arith

Work-IsSound : {s u : Pump} → Work s u → IsSound s → IsSound u
unfolding has_offline
Work-IsSound {s} (announce h) i =
    ground (arith, h, has_offline-append s.to_main (sync_packet 1 (add32 s.sync_token 1)))
Work-IsSound (announce_fails h) i = ground (arith, h)
Work-IsSound (receive p h) i = ground (arith, h)
Work-IsSound (lose h) i = ground (arith, h)
Work-IsSound {s} (forward p h) i = ground (arith, h, has_offline-append s.to_main p)
Work-IsSound (forward_fails p h) i = ground (arith, h)
Work-IsSound {s} (post h) i =
    ground (arith, h, has_offline-append s.to_main (sync_packet 0 0), offline_sync)
Work-IsSound (post_fails h) i = ground (arith, h)
Work-IsSound {s} (leave_output e e' c h l) i = record {
  counted =
      Leave-IsCounted-left s.core c e e' (input_stage s.input) s.is_removed l
        (ground (arith, h, i.counted));
  told = ground (arith, h, i.told);
}
Work-IsSound (hear_offline p rest h q c z) i = ground (arith, h, q, c, z)
Work-IsSound (hear_online p rest h q c z t) i = ground (arith, h, q, c, z)
Work-IsSound (hear_stale p rest h q c z t) i = ground (arith, h, q, c, z)
Work-IsSound (write_remote p rest h q c) i = ground (arith, h, q, c)
Work-IsSound (listen_fails h) i = ground (arith, h)
Work-IsSound (close_sockets h) i = ground (arith, h)
Work-IsSound {s} (leave_input e e' c h l) i = record {
  counted =
      Leave-IsCounted-right s.core c (output_stage s.output) e e' s.is_removed l
        (ground (arith, h, i.counted));
  told = ground (arith, h, i.told);
}
Work-IsSound {s} (main_sync p rest r q c) i =
    ground (arith, q, has_offline-append s.to_input (stamp p), offline_stamp p)
Work-IsSound (main_packet p rest r q c) i = ground (arith, q, c)
Work-IsSound {s} (main_removes n h) i = ground (arith, h)

pub Reach-IsSound : {token : ℕ} {s : Pump} → Reach token s → IsSound s
Reach-IsSound {token} start = registered-IsSound token
Reach-IsSound (later r (works w)) = Work-IsSound w (Reach-IsSound r)
Reach-IsSound (later {s} r (main_sends q open_ c)) =
    ground (arith, Reach-IsSound r, c, has_offline-append s.to_input q)
