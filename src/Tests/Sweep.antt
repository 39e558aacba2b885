-- ===== src/Tests/Sweep.antt =====
-- A transport whose sockets are closed, among others that stay.
use stm32f429_adbd.Common.{◌≡◌, refl, none, [], ◌∷◌, arith}
use stm32f429_adbd.Engine.Monad.{Returns}
use stm32f429_adbd.Rings.{member, unlink, remove_socket}
use stm32f429_adbd.Socket.{
  run_close, detach, local_socket_close_locked, peer_entry, finish_close, local_socket_destroy,
  dispatch_close, remote_close, send_packet, control, remove_transport_disconnect,
}
use stm32f429_adbd.Socket.Sweep.{
  is_of, peer_is_of, belongs_to, pick, find_owned, close_found, sweep, close_all_sockets,
}
use stm32f429_adbd.Socket.Sweep.Total.{EndsClear, close_all_sockets_lem}
use stm32f429_adbd.Tests.Daemon.{store}

-- The socket at 1 has a peer of the transport 0, the one at 4 has no peer.
swept_test :
    Returns
      (close_all_sockets 3 0 store)
      (λ _ σ'. (σ'.locals ≡ 4 ∷ []) × (σ'.heap 1 ≡ none) × (σ'.heap 2 ≡ none))
unfolding close_all_sockets sweep close_found find_owned pick belongs_to peer_is_of is_of run_close
    detach local_socket_close_locked peer_entry finish_close local_socket_destroy dispatch_close
    remote_close send_packet control remove_transport_disconnect member unlink remove_socket
swept_test = (refl, refl, refl)

close_all_sockets_lem_example : EndsClear 0 (close_all_sockets 3 0 store)
close_all_sockets_lem_example = close_all_sockets_lem 3 0 store (omega arith)
