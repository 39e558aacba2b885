-- ===== src/Orderly/Reachable.antt =====
-- The states that the daemon's main thread reaches, from an empty start, through `handle_packet` of
-- adbd/src/adb.c, `local_socket_event_func` and `close_all_sockets` of adbd/src/sockets.c, and
-- `jdwp_process_list_updated` of adbd/src/jdwp_service.c.
use stm32f429_adbd.Common.{
  ℕ, suc, ◌<◌, ◌^◌, ◌≡◌, ◌↔◌, sym, ◌∙◌, ap, true, false, Option, some, List, [], ◌∷◌, ◌==◌, arith,
  Bool-cases, Option-cases, ==_iff, inl, inr, subst,
}
use stm32f429_adbd.Io.{ReadReply}
use stm32f429_adbd.Packet.{Packet}
use stm32f429_adbd.Engine.{Socket, State}
use stm32f429_adbd.Engine.Monad.{ok}
use stm32f429_adbd.Rings.{member, find_local_socket}
use stm32f429_adbd.Rings.Identifiers.{AreNumbered, lookup, find-lookup}
use stm32f429_adbd.Service.{Env}
use stm32f429_adbd.Socket.Sweep.{close_all_sockets}
use stm32f429_adbd.Flow.Event.{Events, local_socket_event_func}
use stm32f429_adbd.Protocol.{handle_packet}
use stm32f429_adbd.Jdwp.Trackers.{jdwp_process_list_updated, updated-Tidy}
use stm32f429_adbd.Orderly.{IsOrderly}
use stm32f429_adbd.Orderly.Event.{event-Tidy}
use stm32f429_adbd.Orderly.Sweep.{close_all_sockets-Tidy}
use stm32f429_adbd.Orderly.Arrival.{Tidy-KeepsOrderly}
use stm32f429_adbd.Orderly.Packets.{handle_packet-IsOrderly}

-- The start has no sockets. Each step is a packet or an event that was handled, the sweep after a
-- transport is lost, or the news for the trackers, and returned; no packet is handled when the
-- counter of identifiers would wrap.
pub data Reached (env : Env) : State → Type 0 where
  start :
      (σ : State) → σ.locals ≡ [] → ((t : ℕ) → (σ.transports t).disconnects ≡ []) → Reached env σ
  packet :
      (p : Packet) (t : ℕ) (a : Unit {0}) {σ σ' : State}
      → Reached env σ
      → suc σ.next_id < 2 ^ 32
      → handle_packet env p t σ ≡ ok a σ'
      → Reached env σ'
  event :
      (s : ℕ) (ev : Events) (replies : List ReadReply) (a : Unit {0}) {σ σ' : State}
      → Reached env σ
      → local_socket_event_func s ev replies σ ≡ ok a σ'
      → Reached env σ'
  transport_lost :
      (n t : ℕ) (a : Unit {0}) {σ σ' : State}
      → Reached env σ
      → close_all_sockets n t σ ≡ ok a σ'
      → Reached env σ'
  processes_changed :
      (msg : List ℕ) (a : Unit {0}) {σ σ' : State}
      → Reached env σ
      → jdwp_process_list_updated msg σ ≡ ok a σ'
      → Reached env σ'

start-IsOrderly :
    (σ : State) → σ.locals ≡ [] → ((t : ℕ) → (σ.transports t).disconnects ≡ []) → IsOrderly σ
unfolding member
start-IsOrderly σ none_on none_linked = record {
  once = rw none_on tt;
  allocated = λ q on. absurd (ground (arith, on, none_on));
  distinct = λ q r y z on. absurd (ground (arith, on, none_on));
  old = λ q on. absurd (ground (arith, on, none_on));
  linked_old = λ t q on. absurd (ground (arith, on, none_linked t));
  linked_off = λ t q on. absurd (ground (arith, on, none_linked t));
}

pub Reached-IsOrderly : {env : Env} {σ : State} → Reached env σ → IsOrderly σ
Reached-IsOrderly (start σ none_on none_linked) = start-IsOrderly σ none_on none_linked
Reached-IsOrderly {env} (packet p t a {σ} {σ'} before small h) =
    handle_packet-IsOrderly env p t σ a σ' small h (Reached-IsOrderly before)
Reached-IsOrderly (event s ev replies a {σ} {σ'} before h) =
    Tidy-KeepsOrderly (local_socket_event_func s ev replies) (λ k. event-Tidy k s ev replies) σ a σ'
      h (Reached-IsOrderly before)
Reached-IsOrderly (transport_lost n t a {σ} {σ'} before h) =
    Tidy-KeepsOrderly (close_all_sockets n t) (λ k. close_all_sockets-Tidy k t n) σ a σ' h
      (Reached-IsOrderly before)
Reached-IsOrderly (processes_changed msg a {σ} {σ'} before h) =
    Tidy-KeepsOrderly (jdwp_process_list_updated msg) (λ k. updated-Tidy k msg) σ a σ' h
      (Reached-IsOrderly before)

-- The local socket at an address has the identifier.
abbrev pub Carries : State → ℕ → ℕ → Type 0
Carries σ id s = (member s σ.locals ≡ true) × ((y : Socket) × (σ.heap s ≡ some y) × (y.id ≡ id))

lookup-found :
    (heap : ℕ → Option Socket) (id s : ℕ) (ring : List ℕ)
    → lookup heap id ring ≡ some s
    → (member s ring ≡ true) × ((y : Socket) × (heap s ≡ some y) × (y.id ≡ id))
unfolding lookup member
lookup-found heap id s [] h = absurd (ground (arith, h))
lookup-found heap id s (q ∷ ring) h = elim (Option-cases (heap q)) [
  | inl e ↦ absurd (ground (arith, h, e))
  | inr (y, e) ↦ elim (Bool-cases (y.id == id)) [
    | inl here ↦
        let same : q ≡ s = ground (arith, h, e, here) in
        (ground (arith, same), (y, subst (λ k. heap k ≡ some y) same e, (==_iff y.id id).0 here))
    | inr other ↦
        let (on, (z, hz, is)) = lookup-found heap id s ring (ground (arith, h, e, other)) in
        (ground (arith, on), (z, hz, is))
  ]
]

lookup-finds :
    (heap : ℕ → Option Socket) (id s next : ℕ) (y : Socket) (ring : List ℕ)
    → AreNumbered heap ring next
    → member s ring ≡ true
    → heap s ≡ some y
    → y.id ≡ id
    → (r : ℕ) × (lookup heap id ring ≡ some r)
unfolding lookup member
lookup-finds heap id s next y [] numbered on h is = absurd (ground (arith, on))
lookup-finds heap id s next y (q ∷ ring) numbered on h is =
    let (z, hz, _) = numbered q (ground arith) in
    elim (Bool-cases (z.id == id)) [
      | inl here ↦ (q, ground (arith, hz, here))
      | inr other ↦
          let (r, found) =
            lookup-finds heap id s next y ring (λ k e. numbered k (ground (arith, e)))
              (ground (arith, on, h, hz, is, other)) h is in
          (r, ground (arith, hz, other, found))
    ]

-- In every state that the main thread reaches from an empty start, handling packets, socket
-- events, lost transports and changed lists of processes in calls that return, while the counter
-- of identifiers does not wrap: if the lock is free, `find_local_socket` returns, meeting no
-- freed socket and changing nothing, and what it returns is the one socket of the ring with the
-- identifier, or NULL exactly if there is none.
pub find_local_socket-Reached :
    (env : Env) (σ : State) (id : ℕ)
    → Reached env σ
    → σ.locked ≡ false
    → (r : Option ℕ) × (find_local_socket id σ ≡ ok r σ) × ((s : ℕ) → (r ≡ some s) ↔ Carries σ id s)
find_local_socket-Reached env σ id reached unlocked =
    let o = Reached-IsOrderly reached in
    let numbered : AreNumbered σ.heap σ.locals σ.next_id =
      λ q on. let (y, hy, below, _) = o.allocated q on in (y, hy, below) in
    (
      lookup σ.heap id σ.locals,
      find-lookup id σ.next_id σ unlocked numbered,
      λ s. (
        λ e. lookup-found σ.heap id s σ.locals e,
        λ (on, (y, h, is)).
            let (r, found) = lookup-finds σ.heap id s σ.next_id y σ.locals numbered on h is in
            let (on', (z, hz, is')) = lookup-found σ.heap id r σ.locals found in
            found ∙ ap some (o.distinct r s z y on' on hz h (is' ∙ sym is)),
      ),
    )
