-- ===== src/Manager/Sockets.antt =====
-- Socket units (src/manager/socket_ops_impl.rs). The system calls that make a descriptor are parameters;
-- `stop_socket` does not remove the files of its sockets here. The task that watches the first
-- descriptor is what the start answers with.
pub mod Fds
pub mod Opened
mod Tests
use Prim.Native.String.{◌++◌ as append, ◌∷◌ as front, [] as empty}
use Prim.Native.Char.{code}
use sysd.Prelude.{
  ℕ, suc, ◌+◌, ◌^◌, String, Bool, true, false, ◌||◌, ◌==◌, string_eq, nat_eq, pos, Option, none,
  some, List, [], ◌∷◌, ◌++◌, Map, get, has_key, insert, remove, if◌then◌else◌, map_or, unwrap_or,
}
use sysd.Text.{begins_with, has_text, split_whitespace, from_str_radix}
use sysd.Units.Words.{to_lowercase}
use sysd.Units.Kinds.{ListenType, Listener, Socket}
use sysd.State.{
  Instant, ServiceState, set_starting, set_running, set_stopping, set_stopped, set_failed,
  is_active,
}
use sysd.Manager.{Manager, ManagerError, RawFd, Result, ok, err, Outcome}
use sysd.Manager.Watched.{with_state, unless_active, when_active}
use sysd.Manager.Sockets.Fds.{socket_service_name}
use sysd.Runtime.Notify.Store.{close_fds}

-- A new descriptor, or the text of the error.
pub data Created : Type 0 where
  descriptor : RawFd → Created
  not_created : String → Created

pub data NetlinkProtocol : Type 0 where
  route kobject_uevent audit selinux netfilter netlink_connector iscsi rdma : NetlinkProtocol

-- Binding to a path with a mode, to an abstract name, and to an address of the network; a pipe with a
-- mode; a netlink socket with its groups.
pub record SocketCalls : Type 0 where
  pub unix_stream : String → ℕ → Created
  pub abstract_stream : String → Created
  pub tcp : String → Created
  pub unix_datagram : String → ℕ → Created
  pub udp : String → Created
  pub fifo : String → ℕ → Created
  pub netlink : NetlinkProtocol → ℕ → Created

abbrev protocols : Map String NetlinkProtocol
protocols =
    ("route", NetlinkProtocol.route)
    ∷ ("kobject-uevent", NetlinkProtocol.kobject_uevent)
    ∷ ("audit", NetlinkProtocol.audit)
    ∷ ("selinux", NetlinkProtocol.selinux)
    ∷ ("netfilter", NetlinkProtocol.netfilter)
    ∷ ("firewall", NetlinkProtocol.netfilter)
    ∷ ("connector", NetlinkProtocol.netlink_connector)
    ∷ ("cn", NetlinkProtocol.netlink_connector)
    ∷ ("iscsi", NetlinkProtocol.iscsi)
    ∷ ("rdma", NetlinkProtocol.rdma)
    ∷ []

unfoldable pub parse_netlink_protocol : String → Option NetlinkProtocol
parse_netlink_protocol name = get protocols (to_lowercase name)

abbrev netlink_with : SocketCalls → String → Option NetlinkProtocol → List String → Created
netlink_with calls name none rest = not_created (append "Unknown netlink protocol: " name)
netlink_with calls name (some p) [] = calls.netlink p 0
netlink_with calls name (some p) (raw ∷ rest) =
    map_or (not_created (append "Invalid netlink groups: " raw)) (calls.netlink p)
      (from_str_radix (2 ^ 32) 10 raw)

abbrev netlink_of : SocketCalls → List String → Created
netlink_of calls [] = not_created "Invalid netlink address: empty"
netlink_of calls (name ∷ rest) = netlink_with calls name (parse_netlink_protocol name) rest

unfoldable pub create_netlink_socket : SocketCalls → String → Created
unfolding parse_netlink_protocol
create_netlink_socket calls addr = netlink_of calls (split_whitespace addr)

-- A port alone is bound on all addresses.
unfoldable pub bind_addr : String → String
bind_addr addr = if has_text ":" addr then addr else append "0.0.0.0:" addr

abbrev rest_of_name : String → String
rest_of_name empty = ""
rest_of_name (front c s) = s

-- 0o666 is 438.
unfoldable pub create_stream_listener : SocketCalls → String → Socket → Created
unfolding bind_addr
create_stream_listener calls address socket =
    if begins_with b'@' address
    then calls.abstract_stream (rest_of_name address)
    else if begins_with b'/' address
    then calls.unix_stream address (unwrap_or 438 socket.socket.socket_mode)
    else calls.tcp (bind_addr address)

unfoldable pub create_datagram_listener : SocketCalls → String → Socket → Created
unfolding bind_addr
create_datagram_listener calls address socket =
    if begins_with b'/' address
    then calls.unix_datagram address (unwrap_or 438 socket.socket.socket_mode)
    else calls.udp (bind_addr address)

-- 0o644 is 420.
abbrev pub listener_of : ListenType → SocketCalls → String → Socket → Created
listener_of ListenType.stream calls address socket = create_stream_listener calls address socket
listener_of ListenType.datagram calls address socket = create_datagram_listener calls address socket
listener_of ListenType.fifo calls address socket =
    calls.fifo address (unwrap_or 420 socket.socket.socket_mode)
listener_of ListenType.netlink calls address socket = create_netlink_socket calls address

unfoldable pub create_listener : SocketCalls → Listener → Socket → Created
unfolding create_stream_listener create_datagram_listener create_netlink_socket
create_listener calls listener socket =
    listener_of listener.listen_type calls listener.address socket

-- All descriptors, or those made before the first error, with the address and the text of the error.
pub data Opening : Type 0 where
  opened : List RawFd → Opening
  broken : List RawFd → (address error : String) → Opening

abbrev pub open_next : Created → Listener → (RawFd → Opening) → List RawFd → Opening
open_next (descriptor fd) listener next fds = next fd
open_next (not_created e) listener next fds = broken fds listener.address e

-- The loop over the listeners; the system calls differ with their place in it.
unfoldable pub open_loop : (ℕ → SocketCalls) → ℕ → Socket → List Listener → List RawFd → Opening
unfolding create_listener
open_loop calls i socket [] fds = opened fds
open_loop calls i socket (l ∷ ls) fds =
    open_next (create_listener (calls i) l socket) l
      (λ fd. open_loop calls (suc i) socket ls (fds ++ fd ∷ [])) fds

-- The service to start when the first of the descriptors can be read.
abbrev pub SocketWatch : Type 0
SocketWatch = String × List RawFd

abbrev pub socket_started : Instant → String → Socket → Opening → Manager → Outcome SocketWatch
socket_started now name socket (opened fds) m = (
  ok (socket_service_name socket, fds),
  with_state name (set_running 0 now) (record m { socket_fds = insert m.socket_fds name fds }),
)
socket_started now name socket (broken fds address e) m = (
  err (ManagerError.io (append "Failed to create listener " (append address (append ": " e)))),
  with_state name (set_failed (append "listener creation failed: " e) now)
      (record m { closed = close_fds fds m.closed }),
)

unfoldable pub start_socket :
    (ℕ → SocketCalls) → Instant → Instant → String → Socket → Manager → Outcome SocketWatch
unfolding open_loop
start_socket calls now now' name socket m = unless_active (get m.states name) name m (
    socket_started now' name socket (open_loop calls 0 socket socket.socket.listeners [])
      (with_state name (set_starting now) m))

abbrev pub close_sockets : String → Option (List RawFd) → Manager → Manager
close_sockets name none m = m
close_sockets name (some fds) m = record m {
  socket_fds = remove m.socket_fds name;
  closed = close_fds fds m.closed;
}

unfoldable pub stop_socket : Instant → Instant → String → Manager → Outcome {0} Unit
stop_socket now now' name m = when_active (get m.states name) name m (
  ok tt,
  with_state name (set_stopped (pos 0) now')
      (close_sockets name (get m.socket_fds name) (with_state name (set_stopping now) m)),
)

-- `load` and `start` are parameters: the loading answers with the name that the unit has.
module _ (load : String → Manager → Outcome String)
    (start : String → Manager → Outcome {0} Unit) where
  abbrev canonical : String → Outcome String → String × Manager
  canonical service_name (ok name, m) = (name, m)
  canonical service_name (err e, m) = (service_name, m)

  abbrev resolved_name : String → Manager → String × Manager
  resolved_name service_name m =
      if has_key m.units service_name
      then (service_name, m)
      else canonical service_name (load service_name m)

  abbrev as_success : Outcome {0} Unit → Outcome {0} Unit
  as_success (err (ManagerError.already_active name), m) = (ok tt, m)
  as_success outcome = outcome

  abbrev activated : String → String × Manager → Outcome {0} Unit
  activated service_name (name, m) =
      if map_or false is_active (get m.states name)
      then (ok tt, m)
      else as_success (start service_name m)

  unfoldable pub handle_socket_activation : String → Manager → Outcome {0} Unit
  handle_socket_activation service_name m = activated service_name (resolved_name service_name m)
