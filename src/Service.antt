-- ===== src/Service.antt =====
-- How sockets are made, adbd/src/sockets.c and adbd/src/jdwp_service.c.
use stm32f429_adbd.Common.{
  ℕ, Bool, true, false, not, ◌&&◌, ◌||◌, Option, none, some, List, [], ◌∷◌, ◌++◌, if◌then◌else◌,
  codes, same_text, has_prefix,
}
use stm32f429_adbd.Engine.{
  Socket, local_socket_enqueue, remote_socket_enqueue, jdwp_socket_enqueue, jdwp_tracker_enqueue,
  local_socket_ready, remote_socket_ready, jdwp_socket_ready, jdwp_tracker_ready,
  local_socket_close, remote_socket_close, jdwp_socket_close, jdwp_tracker_close,
  smart_socket_enqueue, smart_socket_ready, smart_socket_close,
}
use stm32f429_adbd.Engine.Monad.{M, ok, ◌>>=◌, ◌>>◌, pure, skip, modify, calloc, set_transport}
use stm32f429_adbd.Rings.{install_local_socket}
use stm32f429_adbd.Flow.Ready.{call_ready}

-- A local socket for a pair of descriptors, before it has an identifier.
abbrev pub local_socket : ℕ → ℕ → Socket
local_socket fd write_fd = record {
  id = 0;
  closing = false;
  exit_on_close = false;
  peer = none;
  fd = fd;
  write_fd = write_fd;
  want_read = false;
  want_write = false;
  force_eof = false;
  queue = [];
  enqueue = local_socket_enqueue;
  ready = local_socket_ready;
  close = local_socket_close;
  flag = false;
  transport = none;
}

-- `create_local_socket_pair`, and `create_local_socket` where the descriptors are one.
unfoldable pub create_local_socket_pair : ℕ → ℕ → M ℕ
unfolding install_local_socket
create_local_socket_pair read_fd write_fd = do
  s ← calloc (local_socket read_fd write_fd)
  install_local_socket s
  pure s

abbrev pub remote_socket : ℕ → ℕ → Socket
remote_socket id t = record (local_socket 0 0) {
  id = id;
  enqueue = remote_socket_enqueue;
  ready = remote_socket_ready;
  close = remote_socket_close;
  transport = some t;
}

unfoldable pub create_remote_socket : ℕ → ℕ → M ℕ
create_remote_socket id t = do
  s ← calloc (remote_socket id t)
  set_transport t (λ tr. record tr { disconnects = tr.disconnects ++ (s ∷ []) })
  pure s

unfoldable pub create_jdwp_service_socket : M ℕ
unfolding install_local_socket
create_jdwp_service_socket = do
  s ← calloc (record (local_socket 0 0) {
    enqueue = jdwp_socket_enqueue;
    ready = jdwp_socket_ready;
    close = jdwp_socket_close;
  })
  install_local_socket s
  pure s

unfoldable pub create_jdwp_tracker_service_socket : M ℕ
unfolding install_local_socket
create_jdwp_tracker_service_socket = do
  s ← calloc (record (local_socket 0 0) {
    enqueue = jdwp_tracker_enqueue;
    ready = jdwp_tracker_ready;
    close = jdwp_tracker_close;
    flag = true;
  })
  (λ σ. ok tt (record σ { trackers = σ.trackers ++ (s ∷ []) }))
  install_local_socket s
  pure s

-- `connect_to_smartsocket`
unfoldable pub connect_to_smartsocket : ℕ → M (Unit {0})
connect_to_smartsocket s = do
  ss ← calloc (record (local_socket 0 0) {
    enqueue = smart_socket_enqueue;
    ready = smart_socket_ready;
    close = smart_socket_close;
  })
  modify s (λ x. record x { peer = some ss })
  modify ss (λ x. record x { peer = some s })
  call_ready s

-- What the daemon runs with: `service_to_fd` of adbd/src/services.c, the user, the settings, and
-- the keys with the verification of mincrypt.
pub record Env : Type 0 where
  pub service_to_fd : List ℕ → Option (ℕ × ℕ)
  pub is_root : Bool
  pub host : Bool
  pub auth_enabled : Bool
  pub banner : List ℕ
  pub keys : List ℕ
  pub rsa_verify : ℕ → List ℕ → List ℕ → Bool

-- The names for which the daemon exits when the socket closes.
unfoldable pub exits_on_close : Env → List ℕ → Bool
exits_on_close env name =
    (has_prefix (codes "root:") name && not env.is_root)
    || (has_prefix (codes "usb:") name || has_prefix (codes "tcpip:") name)

unfoldable pub create_local_service_socket : Env → List ℕ → M (Option ℕ)
unfolding create_local_socket_pair create_jdwp_service_socket create_jdwp_tracker_service_socket
create_local_service_socket env name =
    if same_text name (codes "jdwp")
    then (create_jdwp_service_socket >>= λ s. pure (some s))
    else if same_text name (codes "track-jdwp")
    then (create_jdwp_tracker_service_socket >>= λ s. pure (some s))
    else elim (env.service_to_fd name) [
      | none ↦ pure none
      | some (rfd, wfd) ↦ (do
        s ← create_local_socket_pair rfd wfd
        (if exits_on_close env name
            then modify s (λ x. record x { exit_on_close = true })
            else skip)
        pure (some s))
    ]
