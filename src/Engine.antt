-- ===== src/Engine.antt =====
-- The engine's memory: `asocket`, `atransport` and `adisconnect` of adbd/include/adb.h, the socket
-- lists of adbd/src/sockets.c, and a state monad over them.
pub mod Monad
pub mod Session
pub mod Calm
use stm32f429_adbd.Common.{ℕ, Bool, Option, List}
use stm32f429_adbd.Io.{WriteReply, ReadReply}
use stm32f429_adbd.Packet.{Packet}

-- The values that the function pointers of an asocket take on the device.
pub data Enqueue : Type 0 where
  local_socket_enqueue remote_socket_enqueue smart_socket_enqueue : Enqueue
  jdwp_socket_enqueue jdwp_tracker_enqueue : Enqueue

pub data Ready : Type 0 where
  local_socket_ready remote_socket_ready smart_socket_ready local_socket_ready_notify : Ready
  jdwp_socket_ready jdwp_tracker_ready : Ready

pub data Close : Type 0 where
  local_socket_close remote_socket_close smart_socket_close local_socket_close_notify : Close
  jdwp_socket_close jdwp_tracker_close : Close

-- `flag` is `pass` of a JdwpSocket and `need_update` of a JdwpTracker. `queue` is the chain from
-- `pkt_first` on, a packet being the bytes that it still has to send. Of the fdevent it keeps the
-- events asked for and `force_eof`.
pub record Socket : Type 0 where
  pub id : ℕ
  pub closing : Bool
  pub exit_on_close : Bool
  pub peer : Option ℕ
  pub fd : ℕ
  pub write_fd : ℕ
  pub want_read : Bool
  pub want_write : Bool
  pub force_eof : Bool
  pub queue : List (List ℕ)
  pub enqueue : Enqueue
  pub ready : Ready
  pub close : Close
  pub flag : Bool
  pub transport : Option ℕ

-- `transport_type`
pub data TransportType : Type 0 where
  usb local any host : TransportType

-- `disconnects` holds the remote sockets whose adisconnect is linked, in order; `sent` the packets
-- that `send_packet` has put on the transport's pipe. `auth_pending` says that `auth_fde` waits for
-- the framework's answer about a key.
pub record Transport : Type 0 where
  pub kind : TransportType
  pub serial : Option (List ℕ)
  pub devpath : Option (List ℕ)
  pub online : Bool
  pub connection_state : ℕ
  pub product : Option (List ℕ)
  pub model : Option (List ℕ)
  pub device : Option (List ℕ)
  pub token : List ℕ
  pub failed_auth_attempts : ℕ
  pub auth_pending : Bool
  pub disconnects : List ℕ
  pub sent : List Packet

-- The heap gives the asocket at an address; `fresh` is the next address of the allocator, which
-- never reuses one. `locals` and `closings` are the rings `local_socket_list` and
-- `local_socket_closing_list`, from their heads on. `trackers` is `_jdwp_trackers_list`, and
-- `jdwp_text` what `jdwp_process_list` prints. `transport_list` holds the registered transports.
-- `locked` is `socket_list_lock`. `write_replies` are the returns of the coming writes, `random`
-- the reads of /dev/urandom; `written` and `closed` record what went to the descriptors and which
-- were closed.
pub record State : Type 0 where
  pub heap : ℕ → Option Socket
  pub fresh : ℕ
  pub locals : List ℕ
  pub closings : List ℕ
  pub trackers : List ℕ
  pub jdwp_text : List ℕ
  pub next_id : ℕ
  pub locked : Bool
  pub transports : ℕ → Transport
  pub transport_list : List ℕ
  pub write_replies : List WriteReply
  pub random : List (List ℕ)
  pub framework_fd : Option ℕ
  pub written : List (ℕ × List ℕ)
  pub closed : List ℕ
