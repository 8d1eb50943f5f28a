-- ===== src/Manager/Sockets/Opened.antt =====
-- What becomes of the descriptors that the start of a socket unit makes (src/manager/socket_ops_impl.rs).
use mathlib.Core.List.{append-nil, append_assoc}
use sysd.Prelude.{
  ℕ, suc, String, ◌≡◌, refl, sym, ap, ◌∙◌, false, some, List, [], ◌∷◌, ◌++◌, get, get-insert_self,
  length, string_eq,
}
use sysd.State.{
  Instant, ServiceState, ActiveState, set_starting, set_running, set_failed, is_active,
}
use sysd.Units.Kinds.{Listener, Socket}
use sysd.Manager.{Manager, RawFd, ok, err, Outcome}
use sysd.Manager.Watched.{with_state}
use sysd.Manager.Mounts.Settled.{Stands, get-with_state}
use sysd.Runtime.Notify.Store.{close_fds}
use sysd.Manager.Sockets.{
  Created, descriptor, not_created, SocketCalls, create_listener, Opening, opened, broken,
  open_next, open_loop, SocketWatch, socket_started, start_socket,
}

abbrev made_next : Created → List RawFd → List RawFd
made_next (descriptor fd) rest = fd ∷ rest
made_next (not_created e) rest = []

-- The descriptors that the calls make for the listeners before the first error.
unfoldable pub made : (ℕ → SocketCalls) → ℕ → Socket → List Listener → List RawFd
made calls i socket [] = []
made calls i socket (l ∷ ls) =
    made_next (create_listener (calls i) l socket) (made calls (suc i) socket ls)

-- The loop has added `mk` to `fds`, and all `n` listeners are there if it has not broken off.
abbrev Tells : List RawFd → List RawFd → ℕ → Opening → Type 0
Tells fds mk n (opened all) = (all ≡ fds ++ mk) × (length mk ≡ n)
Tells fds mk n (broken all address e) = all ≡ fds ++ mk

shift :
    (fds mk : List RawFd) (fd : RawFd) (n : ℕ) (o : Opening)
    → Tells (fds ++ fd ∷ []) mk n o
    → Tells fds (fd ∷ mk) (suc n) o
shift fds mk fd n (opened all) t = (t.0 ∙ append_assoc fds (fd ∷ []) mk, ap suc t.1)
shift fds mk fd n (broken all address e) t = t ∙ append_assoc fds (fd ∷ []) mk

open_next-Tells :
    (c : Created) (l : Listener) (next : RawFd → Opening) (fds mk : List RawFd) (n : ℕ)
    → ((fd : RawFd) → Tells (fds ++ fd ∷ []) mk n (next fd))
    → Tells fds (made_next c mk) (suc n) (open_next c l next fds)
open_next-Tells (descriptor fd) l next fds mk n t = shift fds mk fd n (next fd) (t fd)
open_next-Tells (not_created e) l next fds mk n t = sym (append-nil fds)

open_loop-Tells :
    (calls : ℕ → SocketCalls) (i : ℕ) (socket : Socket) (ls : List Listener) (fds : List RawFd)
    → Tells fds (made calls i socket ls) (length ls) (open_loop calls i socket ls fds)
unfolding open_loop made
open_loop-Tells calls i socket [] fds = (sym (append-nil fds), refl)
open_loop-Tells calls i socket (l ∷ ls) fds =
    open_next-Tells (create_listener (calls i) l socket) l _ fds (made calls (suc i) socket ls)
      (length ls) (λ fd. open_loop-Tells calls (suc i) socket ls (fds ++ fd ∷ []))

-- After success the unit is active and holds all the descriptors that were made, one for each
-- listener; after an error it is failed, and all that were made are closed.
abbrev pub Opens : String → List RawFd → ℕ → Manager → Outcome SocketWatch → Type 0
Opens name mk n m (ok watch, m') =
    Stands ActiveState.active name m'
    × (get m'.socket_fds name ≡ some mk)
    × (length mk ≡ n)
    × (m'.closed ≡ m.closed)
Opens name mk n m (err e, m') =
    Stands ActiveState.failed name m'
    × (m'.socket_fds ≡ m.socket_fds)
    × (m'.closed ≡ close_fds mk m.closed)

socket_started-Opens :
    (now : Instant) (name : String) (socket : Socket) (mk : List RawFd) (n : ℕ) (o : Opening)
    → (m : Manager) (s : ServiceState) → get m.states name ≡ some s
    → Tells [] mk n o
    → Opens name mk n m (socket_started now name socket o m)
unfolding set_running set_failed
socket_started-Opens now name socket mk n (opened all) m s h t = (
  (set_running 0 now s, get-with_state name (set_running 0 now) m s h, refl),
  get-insert_self m.socket_fds name all ∙ ap some t.0,
  t.1,
  refl,
)
socket_started-Opens now name socket mk n (broken all address e) m s h t = (
  (set_failed _ now s, get-with_state name (set_failed _ now) m s h, refl),
  refl,
  ap (λ fds. close_fds fds m.closed) t,
)

-- The start of a socket unit that is not active, whatever the system calls answer: either a descriptor
-- was made for each listener, and the unit is active and holds them all; or one could not be made,
-- the unit is failed, and those made before are closed, with no other unit's descriptors changed.
pub start_socket-Opens :
    (calls : ℕ → SocketCalls) (now now' : Instant) (name : String) (socket : Socket)
    → (m : Manager) (s : ServiceState) → get m.states name ≡ some s
    → is_active s ≡ false
    → Opens name
        (made calls 0 socket socket.socket.listeners)
        (length socket.socket.listeners)
        m
        (start_socket calls now now' name socket m)
unfolding start_socket
start_socket-Opens calls now now' name socket m s h k =
    rw (h, start_socket, k)
      (socket_started-Opens now' name socket _ _ _ (with_state name (set_starting now) m)
        (set_starting now s) (get-with_state name (set_starting now) m s h)
        (open_loop-Tells calls 0 socket socket.socket.listeners []))
