-- ===== src/Jdwp/Trackers.antt =====
-- `jdwp_process_list_updated` of adbd/src/jdwp_service.c: what the trackers are sent when the
-- list of processes has changed.
use stm32f429_adbd.Common.{
  ℕ, ◌≡◌, refl, sym, ap, ◌∙◌, Option, none, some, List, [], ◌∷◌, ◌++◌, if◌then◌else◌, ◌==◌, arith,
  append_assoc, append-nil, Bool-cases, ==_iff, inl, inr,
}
use stm32f429_adbd.Packet.{Packet, stamp, a_wrte}
use stm32f429_adbd.Engine.{Socket, State, remote_socket_enqueue}
use stm32f429_adbd.Engine.Monad.{M, ok, ◌>>=◌, skip, gets, load, deref, with_transport}
use stm32f429_adbd.Socket.{send_packet}
use stm32f429_adbd.Flow.{call_enqueue, remote_enqueue, payload_packet, not_ready}
use stm32f429_adbd.Orderly.{Tidy, ◌▷◌, Tidy-pure}
use stm32f429_adbd.Orderly.Basic.{load-Tidy, deref-Tidy}
use stm32f429_adbd.Orderly.Delivery.{gets-Tidy, call_enqueue-Tidy}

-- The loop, with the message that `jdwp_process_list_msg` made.
unfoldable pub notify_from : List ℕ → List ℕ → M (Unit {0})
notify_from msg [] = skip
notify_from msg (t ∷ trackers) = do
  x ← load t
  p ← deref x.peer
  _ ← call_enqueue p msg
  notify_from msg trackers

unfoldable pub jdwp_process_list_updated : List ℕ → M (Unit {0})
unfolding notify_from
jdwp_process_list_updated msg = do trackers ← gets (λ σ. σ.trackers); notify_from msg trackers

-- Every tracker is linked to a remote socket, and that to it.
abbrev pub AreConnected : (ℕ → Option Socket) → List ℕ → Type 0
AreConnected heap [] = Unit {0}
AreConnected heap (t ∷ trackers) =
    ((x : Socket) × (p : ℕ) × (y : Socket) × (k : ℕ) × (heap t ≡ some x)
      × (x.peer ≡ some p)
      × (heap p ≡ some y)
      × (y.enqueue ≡ remote_socket_enqueue)
      × (y.peer ≡ some t)
      × (y.transport ≡ some k))
    × AreConnected heap trackers

-- The packet for a tracker, if its remote socket is the transport's.
abbrev pub news : List ℕ → ℕ → Option Socket → Option Socket → List Packet
news msg k (some x) (some y) = elim y.transport [
  | none ↦ []
  | some j ↦ if j == k then stamp (payload_packet a_wrte x.id y.id msg) ∷ [] else []
]
news msg k _ _ = []

abbrev pub peer_of : (ℕ → Option Socket) → Option Socket → Option Socket
peer_of heap none = none
peer_of heap (some x) = elim x.peer [ none ↦ none | some p ↦ heap p ]

-- The packets that go to the transport, in the order of the trackers.
abbrev pub all_news : List ℕ → ℕ → (ℕ → Option Socket) → List ℕ → List Packet
all_news msg k heap [] = []
all_news msg k heap (t ∷ trackers) =
    news msg k (heap t) (peer_of heap (heap t)) ++ all_news msg k heap trackers

abbrev sent_to : ℕ → Packet → State → State
sent_to k p = with_transport k (λ tr. record tr { sent = tr.sent ++ (stamp p ∷ []) })

notify_one :
    (msg : List ℕ) (σ : State) (p t k : ℕ) (x y : Socket)
    → σ.heap p ≡ some y
    → σ.heap t ≡ some x
    → y.enqueue ≡ remote_socket_enqueue
    → y.peer ≡ some t
    → y.transport ≡ some k
    → call_enqueue p msg σ ≡ ok not_ready (sent_to k (payload_packet a_wrte x.id y.id msg) σ)
unfolding call_enqueue remote_enqueue send_packet
notify_one msg σ p t k x y hp ht e peer transport = ground arith

sent_one :
    (msg : List ℕ) (σ : State) (p t j k : ℕ) (x y : Socket)
    → σ.heap t ≡ some x
    → x.peer ≡ some p
    → σ.heap p ≡ some y
    → y.transport ≡ some j
    → ((sent_to j (payload_packet a_wrte x.id y.id msg) σ).transports k).sent
      ≡ (σ.transports k).sent ++ news msg k (σ.heap t) (peer_of σ.heap (σ.heap t))
sent_one msg σ p t j k x y ht peer hp transport = elim (Bool-cases (j == k)) [
  | inl e ↦
      let same : j ≡ k = (==_iff j k).0 e in
      rw (ht, peer, hp, transport, e)
        (ap (λ i. (σ.transports i).sent ++ (stamp (payload_packet a_wrte x.id y.id msg) ∷ [])) same)
  | inr e ↦ rw (ht, peer, hp, transport, e) (sym (append-nil _))
]

-- When every tracker is linked to a remote socket, and that to it, `jdwp_process_list_updated`
-- returns: each transport is sent one WRTE with the message for each tracker on it, from the
-- tracker to its remote socket, in the order of the trackers and after what it was sent before,
-- and no socket changes.
pub jdwp_process_list_updated_lem :
    (msg : List ℕ) (σ : State)
    → AreConnected σ.heap σ.trackers
    → (σ' : State) × (jdwp_process_list_updated msg σ ≡ ok tt σ')
      × (σ'.heap ≡ σ.heap)
      × ((k : ℕ)
          → (σ'.transports k).sent ≡ (σ.transports k).sent ++ all_news msg k σ.heap σ.trackers)
unfolding jdwp_process_list_updated
jdwp_process_list_updated_lem msg σ connected = from σ.trackers σ connected
  where
    from :
        (trackers : List ℕ) (σ : State)
        → AreConnected σ.heap trackers
        → (σ' : State) × (notify_from msg trackers σ ≡ ok tt σ')
          × (σ'.heap ≡ σ.heap)
          × ((k : ℕ)
              → (σ'.transports k).sent ≡ (σ.transports k).sent ++ all_news msg k σ.heap trackers)
    from [] σ connected = (σ, refl, refl, λ k. sym (append-nil _))
    from (t ∷ trackers) σ ((x, p, y, j, ht, peer, hp, e, back, transport), connected) =
        let one = notify_one msg σ p t j x y hp ht e back transport in
        let (σ', rest, heap, sent) =
          from trackers (sent_to j (payload_packet a_wrte x.id y.id msg) σ) connected in
        (
          σ',
          ground (arith, ht, peer, one, rest),
          heap,
          λ k.
              sent k
              ∙ ap (λ l. l ++ all_news msg k σ.heap trackers)
                  (sent_one msg σ p t j k x y ht peer hp transport)
              ∙ append_assoc (σ.transports k).sent _ _,
        )

notify-Tidy : (s : ℕ) (msg trackers : List ℕ) → Tidy s (notify_from msg trackers)
unfolding notify_from
notify-Tidy s msg [] = Tidy-pure tt
notify-Tidy s msg (t ∷ trackers) = load-Tidy s t ▷ λ x.
    deref-Tidy s x.peer ▷ λ p. call_enqueue-Tidy s p msg ▷ λ _. notify-Tidy s msg trackers

pub updated-Tidy : (s : ℕ) (msg : List ℕ) → Tidy s (jdwp_process_list_updated msg)
unfolding jdwp_process_list_updated
updated-Tidy s msg = gets-Tidy s (λ σ. σ.trackers) ▷ λ trackers. notify-Tidy s msg trackers
