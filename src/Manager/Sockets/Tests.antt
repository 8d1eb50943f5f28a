-- ===== src/Manager/Sockets/Tests.antt =====
-- Tests of socket units.
use sysd.Prelude.{
  ℕ, ◌+◌, ◌==◌, nat_eq, String, ◌≡◌, refl, pos, Bool, true, false, Option, none, some, List, [],
  ◌∷◌, get, length, if◌then◌else◌, string_eq, int_eq,
}
use sysd.State
use sysd.DynamicUser
use sysd.Units.Kinds.{Socket, ListenType, Listener, socket}
use sysd.Units.Fields.Build.{new_socket}
use sysd.Manager.{Manager}
use sysd.Manager.Sockets.{
  SocketCalls, Created, descriptor, not_created, NetlinkProtocol, create_netlink_socket,
  start_socket,
}
use sysd.Manager.Sockets.Fds.{get_socket_fds, get_socket_fd_names, length-get_socket_fd_names}
use sysd.Manager.Sockets.Opened.{made, Opens, start_socket-Opens}

-- Call `i` makes descriptor 10 + i, but no datagram socket of the network.
abbrev kernel : ℕ → SocketCalls
kernel i = record {
  unix_stream = λ path mode. descriptor (pos (10 + i));
  abstract_stream = λ name. descriptor (pos (10 + i));
  tcp = λ address. descriptor (pos (10 + i));
  unix_datagram = λ path mode. descriptor (pos (10 + i));
  udp = λ address. not_created "Address already in use (os error 98)";
  fifo = λ path mode. descriptor (pos (10 + i));
  netlink = λ protocol groups. descriptor (pos groups);
}

abbrev both : Socket
both = record (new_socket "app.socket") {
  socket = record (new_socket "app.socket").socket {
    listeners =
        record { address = "/run/app"; listen_type = ListenType.stream }
        ∷ record { address = "53"; listen_type = ListenType.datagram }
        ∷ [];
  };
}

abbrev with_socket : Manager
with_socket = record {
  units = ("app.socket", socket both) ∷ [];
  states = ("app.socket", State.new 0) ∷ [];
  processes = [];
  unit_paths = [];
  waiting_ready = [];
  cgroup_paths = [];
  pid_files = [];
  active_jobs = 0;
  waiting_bus_name = [];
  watchdog_deadlines = [];
  dynamic_user_manager = DynamicUser.new;
  dynamic_uids = [];
  fd_store = [];
  pid_to_service = [];
  pending_oneshot_cmds = [];
  socket_fds = ("app.socket", pos 3 ∷ pos 4 ∷ []) ∷ [];
  user_environment = [];
  closed = [];
}

create_netlink_socket_example :
    create_netlink_socket (kernel 0) "Route 1361" ≡ descriptor (pos 1361)
unfolding create_netlink_socket sysd.Text.split_whitespace sysd.Prelude.keep sysd.Text.is_whitespace
    get sysd.Units.Words.to_lowercase sysd.Text.from_str_radix
create_netlink_socket_example = refl

get_socket_fd_names_example : get_socket_fd_names with_socket "app.service" ≡ "app" ∷ "app" ∷ []
unfolding get_socket_fd_names get sysd.Units.Kinds.as_socket
    sysd.Manager.Sockets.Fds.socket_service_name new_socket sysd.Text.replace sysd.Text.starts_with
    sysd.Text.strip_end
get_socket_fd_names_example = refl

closed_example : (start_socket kernel 1 2 "app.socket" both with_socket).1.closed ≡ pos 10 ∷ []
unfolding start_socket get State.is_active State.new sysd.Text.begins_with
    sysd.Runtime.Notify.Store.close_fds
closed_example = refl

start_socket-Opens_example :
    Opens "app.socket"
      (made kernel 0 both both.socket.listeners)
      (length both.socket.listeners)
      with_socket
      (start_socket kernel 1 2 "app.socket" both with_socket)
unfolding get State.is_active State.new
start_socket-Opens_example =
    start_socket-Opens kernel 1 2 "app.socket" both with_socket (State.new 0) refl refl
