-- ===== src/Orderly/Delivery.antt =====
-- The enqueue and ready functions of adbd/src/sockets.c and adbd/src/jdwp_service.c, and
-- `local_socket_event_func`, keep the ring of local sockets orderly, and put no socket on it.
use stm32f429_adbd.Common.{
  ℕ, ◌+◌, Bool, true, false, refl, Option, some, arith, List, [], ◌∷◌, ◌++◌, if◌then◌else◌, ltb,
  length, codes, ◌==◌,
}
use stm32f429_adbd.Hex.{hex4}
use stm32f429_adbd.Io.{WriteReply}
use stm32f429_adbd.Packet.{max_payload}
use stm32f429_adbd.Select.{Attempt, found, refused, retry, cs_offline}
use stm32f429_adbd.Stream.{push, WriteEnd, drained, would_block, broken}
use stm32f429_adbd.Engine.{
  State, Enqueue, Ready, local_socket_enqueue, remote_socket_enqueue, smart_socket_enqueue,
  jdwp_socket_enqueue, jdwp_tracker_enqueue, local_socket_ready, remote_socket_ready,
  smart_socket_ready, local_socket_ready_notify, jdwp_socket_ready, jdwp_tracker_ready,
}
use stm32f429_adbd.Engine.Monad.{◌>>=◌, ◌>>◌, modify, skip, pure, deref, gets, exit}
use stm32f429_adbd.Socket.{call_close}
use stm32f429_adbd.Flow.{
  closed_us, ready_for_more, not_ready, append_packet, local_enqueue, remote_enqueue,
  refuse_enqueue, connect_to_remote, smart_fail, smart_refuse, smart_connect, smart_request,
  smart_header, smart_enqueue, call_enqueue, wrote, error_text,
}
use stm32f429_adbd.Flow.Ready.{
  write_once, local_ready, remote_ready, ready_notify, jdwp_ready, tracker_ready, call_ready,
}
use stm32f429_adbd.Orderly.{Tidy, ◌▷◌, Tidy-if, Tidy-option, Tidy-pure}
use stm32f429_adbd.Orderly.Basic.{IsAside-Tidy, load-Tidy, deref-Tidy, modify-Tidy}
use stm32f429_adbd.Orderly.Closing.{send_packet-Tidy, sendfailmsg-Tidy, call_close-Tidy}

pub gets-Tidy : {A : Type 0} (s : ℕ) (f : State → A) → Tidy s (gets f)
gets-Tidy s f = IsAside-Tidy s (gets f) λ σ a σ' h. ground arith

pub wrote-Tidy : (s fd : ℕ) (bytes : List ℕ) (left : List WriteReply) → Tidy s (wrote fd bytes left)
wrote-Tidy s fd bytes left = IsAside-Tidy s _ λ σ a σ' h. ground arith

module _ (s : ℕ) where
  exit-Tidy : {A : Type 0} → Tidy s (exit {A = A})
  exit-Tidy = IsAside-Tidy s exit λ σ a σ' h. ground arith

  append-Tidy : (p : ℕ) (bytes : List ℕ) → Tidy s (append_packet p bytes)
  unfolding append_packet
  append-Tidy p bytes = modify-Tidy s p _ (λ x. refl) (λ x h. h)

  local_enqueue-Tidy : (p : ℕ) (bytes : List ℕ) → Tidy s (local_enqueue p bytes)
  unfolding local_enqueue
  local_enqueue-Tidy p bytes = load-Tidy s p ▷ λ x. by_queue x.queue x.write_fd
    where
      by_end :
          (end : WriteEnd) (left : List ℕ)
          → Tidy s (elim end [
            | drained ↦ pure ready_for_more
            | would_block ↦ (do append_packet p left; pure not_ready)
            | broken ↦ (do call_close p; pure not_ready)
          ])
      by_end drained left = Tidy-pure ready_for_more
      by_end would_block left = append-Tidy p left ▷ λ _. Tidy-pure not_ready
      by_end broken left = call_close-Tidy s p ▷ λ _. Tidy-pure not_ready

      by_queue :
          (queue : List (List ℕ)) (fd : ℕ)
          → Tidy s (elim queue [
            | _ ∷ _ ↦ (do append_packet p bytes; pure not_ready)
            | [] ↦ (do
              r ← gets (λ σ. push σ.write_replies bytes)
              wrote fd r.written r.replies
              elim r.end [
                | drained ↦ pure ready_for_more
                | would_block ↦ (do append_packet p r.left; pure not_ready)
                | broken ↦ (do call_close p; pure not_ready)
              ])
          ])
      by_queue (b ∷ queue) fd = append-Tidy p bytes ▷ λ _. Tidy-pure not_ready
      by_queue [] fd = gets-Tidy s (λ σ. push σ.write_replies bytes) ▷ λ r.
          wrote-Tidy s fd r.written r.replies ▷ λ _. by_end r.end r.left

  remote_enqueue-Tidy : (p : ℕ) (bytes : List ℕ) → Tidy s (remote_enqueue p bytes)
  unfolding remote_enqueue
  remote_enqueue-Tidy p bytes = load-Tidy s p ▷ λ x. deref-Tidy s x.peer ▷ λ q.
      load-Tidy s q ▷ λ y. send_packet-Tidy s _ x.transport ▷ λ _. Tidy-pure not_ready

  refuse_enqueue-Tidy : (p : ℕ) (bytes : List ℕ) → Tidy s (refuse_enqueue p bytes)
  unfolding refuse_enqueue
  refuse_enqueue-Tidy p bytes =
      load-Tidy s p ▷ λ x. deref-Tidy s x.peer ▷ λ q. call_close-Tidy s q ▷ λ _. Tidy-pure closed_us

  connect-Tidy : (p : ℕ) (name : List ℕ) → Tidy s (connect_to_remote p name)
  unfolding connect_to_remote
  connect-Tidy p name = load-Tidy s p ▷ λ x.
      Tidy-if _ exit-Tidy (Tidy-pure tt) ▷ λ _. send_packet-Tidy s _ x.transport

  smart_fail-Tidy : (p : ℕ) → Tidy s (smart_fail p)
  unfolding smart_fail
  smart_fail-Tidy p = call_close-Tidy s p ▷ λ _. Tidy-pure closed_us

  smart_refuse-Tidy : (p : ℕ) (reason : List ℕ) → Tidy s (smart_refuse p reason)
  unfolding smart_refuse
  smart_refuse-Tidy p reason = load-Tidy s p ▷ λ x. deref-Tidy s x.peer ▷ λ q.
      load-Tidy s q ▷ λ y. sendfailmsg-Tidy s y.fd reason ▷ λ _. smart_fail-Tidy p

  smart_connect-Tidy : (p t : ℕ) (service : List ℕ) → Tidy s (smart_connect p t service)
  unfolding smart_connect
  smart_connect-Tidy p t service = load-Tidy s p ▷ λ x. deref-Tidy s x.peer ▷ λ q.
      modify-Tidy s q _ (λ x. refl) (λ x h. refl) ▷ λ _. connect-Tidy q service ▷ λ _.
      modify-Tidy s p _ (λ x. refl) (λ x h. h) ▷ λ _. call_close-Tidy s p ▷ λ _. Tidy-pure not_ready

  smart_request-Tidy : (p : ℕ) (service : List ℕ) → Tidy s (smart_request p service)
  unfolding smart_request
  smart_request-Tidy p service = load-Tidy s p ▷ λ x.
      Tidy-option x.transport (gets-Tidy s _) (λ t. Tidy-pure (found t)) ▷ λ chosen.
      by_choice chosen
    where
      by_choice :
          (chosen : Attempt)
          → Tidy s (elim chosen [
            | retry ↦ smart_refuse p (codes "unknown failure")
            | refused e ↦ smart_refuse p (error_text e)
            | found t ↦ (do
              modify p (λ z. record z { transport = some t })
              state ← gets (λ σ. (σ.transports t).connection_state)
              if state == cs_offline
                  then smart_refuse p (codes "device offline (x)")
                  else smart_connect p t service)
          ])
      by_choice retry = smart_refuse-Tidy p (codes "unknown failure")
      by_choice (refused e) = smart_refuse-Tidy p (error_text e)
      by_choice (found t) = modify-Tidy s p _ (λ x. refl) (λ x h. h) ▷ λ _. gets-Tidy s _ ▷ λ state.
          Tidy-if (state == cs_offline) (smart_refuse-Tidy p (codes "device offline (x)"))
            (smart_connect-Tidy p t service)

  smart_header-Tidy : (p : ℕ) (bytes : List ℕ) → Tidy s (smart_header p bytes)
  unfolding smart_header
  smart_header-Tidy p bytes = Tidy-if _ (Tidy-pure ready_for_more) (
      Tidy-if _ (smart_fail-Tidy p) (Tidy-if _ (Tidy-pure ready_for_more) (smart_request-Tidy p _)))

  smart_enqueue-Tidy : (p : ℕ) (bytes : List ℕ) → Tidy s (smart_enqueue p bytes)
  unfolding smart_enqueue
  smart_enqueue-Tidy p bytes = load-Tidy s p ▷ λ x. by_queue x.queue
    where
      by_queue :
          (queue : List (List ℕ))
          → Tidy s (elim queue [
            | [] ↦ (do modify p (λ z. record z { queue = bytes ∷ [] }); smart_header p bytes)
            | gathered ∷ _ ↦
                if ltb max_payload (length gathered + length bytes) then smart_fail p else (do
                  modify p (λ z. record z { queue = (gathered ++ bytes) ∷ [] })
                  smart_header p (gathered ++ bytes))
          ])
      by_queue [] = modify-Tidy s p _ (λ x. refl) (λ x h. h) ▷ λ _. smart_header-Tidy p bytes
      by_queue (gathered ∷ more) =
          Tidy-if _ (smart_fail-Tidy p)
            (modify-Tidy s p _ (λ x. refl) (λ x h. h) ▷ λ _. smart_header-Tidy p _)

  pub call_enqueue-Tidy : (p : ℕ) (bytes : List ℕ) → Tidy s (call_enqueue p bytes)
  unfolding call_enqueue
  call_enqueue-Tidy p bytes = load-Tidy s p ▷ λ x. by_kind x.enqueue
    where
      by_kind :
          (kind : Enqueue)
          → Tidy s (elim kind [
            | local_socket_enqueue ↦ local_enqueue p bytes
            | remote_socket_enqueue ↦ remote_enqueue p bytes
            | smart_socket_enqueue ↦ smart_enqueue p bytes
            | jdwp_socket_enqueue ↦ refuse_enqueue p bytes
            | jdwp_tracker_enqueue ↦ refuse_enqueue p bytes
          ])
      by_kind local_socket_enqueue = local_enqueue-Tidy p bytes
      by_kind remote_socket_enqueue = remote_enqueue-Tidy p bytes
      by_kind smart_socket_enqueue = smart_enqueue-Tidy p bytes
      by_kind jdwp_socket_enqueue = refuse_enqueue-Tidy p bytes
      by_kind jdwp_tracker_enqueue = refuse_enqueue-Tidy p bytes

  local_ready-Tidy : (p : ℕ) → Tidy s (local_ready p)
  unfolding local_ready
  local_ready-Tidy p = modify-Tidy s p _ (λ x. refl) (λ x h. h)

  remote_ready-Tidy : (p : ℕ) → Tidy s (remote_ready p)
  unfolding remote_ready
  remote_ready-Tidy p = load-Tidy s p ▷ λ x.
      deref-Tidy s x.peer ▷ λ q. load-Tidy s q ▷ λ y. send_packet-Tidy s _ x.transport

  pub write_once-Tidy : (fd : ℕ) (bytes : List ℕ) → Tidy s (write_once fd bytes)
  unfolding write_once
  write_once-Tidy fd bytes = IsAside-Tidy s _ λ σ a σ' h. ground arith

  ready_notify-Tidy : (p : ℕ) → Tidy s (ready_notify p)
  unfolding ready_notify
  ready_notify-Tidy p = modify-Tidy s p _ (λ x. refl) (λ x h. refl) ▷ λ _.
      load-Tidy s p ▷ λ x. write_once-Tidy x.fd _ ▷ λ _. local_ready-Tidy p

  jdwp_ready-Tidy : (p : ℕ) → Tidy s (jdwp_ready p)
  unfolding jdwp_ready
  jdwp_ready-Tidy p = load-Tidy s p ▷ λ x. deref-Tidy s x.peer ▷ λ q. by_pass q x.flag
    where
      by_pass :
          (q : ℕ) (flag : Bool)
          → Tidy s (elim flag [
            | false ↦ (do
              text ← gets (λ σ. σ.jdwp_text)
              _ ← call_enqueue q text
              modify p (λ z. record z { flag = true }))
            | true ↦ call_close q
          ])
      by_pass q false = gets-Tidy s _ ▷ λ text.
          call_enqueue-Tidy q text ▷ λ _. modify-Tidy s p _ (λ x. refl) (λ x h. h)
      by_pass q true = call_close-Tidy s q

  tracker_ready-Tidy : (p : ℕ) → Tidy s (tracker_ready p)
  unfolding tracker_ready
  tracker_ready-Tidy p = load-Tidy s p ▷ λ x. by_update x.peer x.flag
    where
      by_update :
          (peer : Option ℕ) (flag : Bool)
          → Tidy s (elim flag [
            | false ↦ skip
            | true ↦ (do
              modify p (λ z. record z { flag = false })
              text ← gets (λ σ. σ.jdwp_text)
              q ← deref peer
              _ ← call_enqueue q (hex4 (length text) ++ text)
              skip)
          ])
      by_update peer false = Tidy-pure tt
      by_update peer true = modify-Tidy s p _ (λ x. refl) (λ x h. h) ▷ λ _. gets-Tidy s _ ▷ λ text.
          deref-Tidy s peer ▷ λ q.
          call_enqueue-Tidy q (hex4 (length text) ++ text) ▷ λ _. Tidy-pure tt

  pub call_ready-Tidy : (p : ℕ) → Tidy s (call_ready p)
  unfolding call_ready
  call_ready-Tidy p = load-Tidy s p ▷ λ x. by_kind x.ready
    where
      by_kind :
          (kind : Ready)
          → Tidy s (elim kind [
            | local_socket_ready ↦ local_ready p
            | remote_socket_ready ↦ remote_ready p
            | smart_socket_ready ↦ skip
            | local_socket_ready_notify ↦ ready_notify p
            | jdwp_socket_ready ↦ jdwp_ready p
            | jdwp_tracker_ready ↦ tracker_ready p
          ])
      by_kind local_socket_ready = local_ready-Tidy p
      by_kind remote_socket_ready = remote_ready-Tidy p
      by_kind smart_socket_ready = Tidy-pure tt
      by_kind local_socket_ready_notify = ready_notify-Tidy p
      by_kind jdwp_socket_ready = jdwp_ready-Tidy p
      by_kind jdwp_tracker_ready = tracker_ready-Tidy p
