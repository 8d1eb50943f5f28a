-- ===== src/Manager/Sockets/Fds.antt =====
-- Which descriptors a service is given by its sockets, and their names
-- (src/manager/socket_ops_impl.rs). The callback that is called for each socket is here the list of
-- the sockets that it is called for.
use sysd.Prelude.{
  suc, String, ◌≡◌, refl, ap, Bool, false, ◌==◌, string_eq, Option, none, some, List, [], ◌∷◌, ◌++◌,
  Map, get, length, length-append, if◌then◌else◌, map_or, unwrap_or, ◌>>=◌,
}
use sysd.Text.{replace, strip_end}
use sysd.Units.Kinds.{Socket, AnyUnit, as_service, as_socket}
use sysd.Manager.{Manager, RawFd}

-- `Socket::service_name`.
unfoldable pub socket_service_name : Socket → String
socket_service_name s = unwrap_or (replace ".socket" ".service" s.name) s.socket.service

abbrev Given : Type 0
Given = List (String × List RawFd)

abbrev given : String → Option (List RawFd) → Given → Given
given name none rest = rest
given name (some fds) rest = (name, fds) ∷ rest

unfoldable pub listed_sockets : Map String (List RawFd) → List String → Given
listed_sockets socket_fds [] = []
listed_sockets socket_fds (name ∷ names) =
    given name (get socket_fds name) (listed_sockets socket_fds names)

-- Empty when there is no service, or when none of its `Sockets=` has descriptors.
unfoldable pub configured_sockets : Manager → String → Given
unfolding listed_sockets
configured_sockets m service_name =
    map_or [] (λ s. listed_sockets m.socket_fds s.service.sockets)
      (get m.units service_name >>= as_service)

abbrev names_service : String → AnyUnit → Bool
names_service service_name unit =
    map_or false (λ s. socket_service_name s == service_name) (as_socket unit)

abbrev first_given : String → Option (List RawFd) → Given → Given
first_given name none later = later
first_given name (some fds) later = (name, fds) ∷ []

unfoldable pub reverse_mapped : Manager → String → Map String AnyUnit → Given
reverse_mapped m service_name [] = []
reverse_mapped m service_name ((name, unit) ∷ rest) =
    let later = reverse_mapped m service_name rest in
    let found = first_given name (get m.socket_fds name) later in
    if names_service service_name unit then found else later

abbrev or_reverse : Given → Given → Given
or_reverse [] reverse = reverse
or_reverse (g ∷ gs) reverse = g ∷ gs

unfoldable pub service_sockets : Manager → String → Given
unfolding configured_sockets reverse_mapped
service_sockets m service_name =
    or_reverse (configured_sockets m service_name) (reverse_mapped m service_name m.units)

unfoldable pub all_fds : Given → List RawFd
all_fds [] = []
all_fds ((name, fds) ∷ rest) = fds ++ all_fds rest

unfoldable pub get_socket_fds : Manager → String → List RawFd
unfolding service_sockets all_fds
get_socket_fds m service_name = all_fds (service_sockets m service_name)

abbrev stem : String → String
stem name = unwrap_or name (strip_end ".socket" name)

unfoldable pub resolve_fd_name : Manager → String → String
resolve_fd_name m name =
    map_or (stem name) (λ s. unwrap_or (stem name) s.socket.fd_name)
      (get m.units name >>= as_socket)

unfoldable pub for_each_fd : String → List RawFd → List String
for_each_fd name [] = []
for_each_fd name (fd ∷ fds) = name ∷ for_each_fd name fds

unfoldable pub all_names : Manager → Given → List String
unfolding for_each_fd resolve_fd_name
all_names m [] = []
all_names m ((name, fds) ∷ rest) = for_each_fd (resolve_fd_name m name) fds ++ all_names m rest

unfoldable pub get_socket_fd_names : Manager → String → List String
unfolding service_sockets all_names
get_socket_fd_names m service_name = all_names m (service_sockets m service_name)

length-for_each_fd : (name : String) (fds : List RawFd) → length (for_each_fd name fds) ≡ length fds
unfolding for_each_fd
length-for_each_fd name [] = refl
length-for_each_fd name (fd ∷ fds) = ap suc (length-for_each_fd name fds)

length-all_names : (m : Manager) (g : Given) → length (all_names m g) ≡ length (all_fds g)
unfolding all_names all_fds
length-all_names m [] = refl
length-all_names m ((name, fds) ∷ rest) =
    rw
      (
        length-append (for_each_fd (resolve_fd_name m name) fds) (all_names m rest),
        length-append fds (all_fds rest),
        length-for_each_fd,
        length-all_names m rest,
      )
      refl

-- A service is given as many names as descriptors.
pub length-get_socket_fd_names :
    (m : Manager) (service_name : String)
    → length (get_socket_fd_names m service_name) ≡ length (get_socket_fds m service_name)
unfolding get_socket_fd_names get_socket_fds
length-get_socket_fd_names m service_name = length-all_names m (service_sockets m service_name)
