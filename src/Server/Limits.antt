-- ===== src/Server/Limits.antt =====
-- The limit on connections of a server without a thread pool.
use kdsoap.Prelude.{
  ℕ, ◌+◌, ◌≤◌, ◌<◌, List, [], ◌∷◌, Option, none, some, Bool-cases, true, false, inl, inr, ◌≡◌, refl,
  sym, ◌∙◌, ap, ap₂, subst, arith, length, pos,
}
use kdsoap.Pool.{SocketList, remove_socket, remove}
use kdsoap.Server.{
  Server, list_count, change, add_to_list, server_num_connected_sockets, is_full, accept, accept_in,
  incoming_connection, socket_disconnected,
}

-- What happens to a server: a client connects, or one disconnects.
pub data Step : Server → Server → Type 0 where
  connects : (socket : ℕ) (s : Server) → Step s (incoming_connection socket s)
  disconnects : (socket : ℕ) (s : Server) → Step s (socket_disconnected socket s)

pub data Steps : Server → Server → Type 0 where
  stay : (s : Server) → Steps s s
  then_step : (r s t : Server) → Steps r s → Step s t → Steps r t

-- Without a pool, with that limit, and within it.
abbrev pub Within : ℕ → Server → Type 0
Within n s =
    (s.thread_pool ≡ none)
    × (s.max_connections ≡ pos n)
    × (list_count s.main_thread_socket_list ≤ n)

list_count-add :
    (socket : ℕ) (l : Option SocketList)
    → list_count (some (add_to_list socket l)) ≡ list_count l + 1
unfolding list_count add_to_list
list_count-add socket none = refl
list_count-add socket (some l) = omega arith

length-remove : (n : ℕ) (ms : List ℕ) → length (remove n ms) ≤ length ms
unfolding remove
length-remove n [] = omega arith
length-remove n (m ∷ ms) = ground (arith, length-remove n ms)

list_count-remove :
    (socket : ℕ) (l : Option SocketList)
    → list_count (change (remove_socket socket) l) ≤ list_count l
unfolding list_count change remove_socket
list_count-remove socket none = omega arith
list_count-remove socket (some l) = length-remove socket l.sockets

is_full-eq-false : (n k : ℕ) → is_full (pos n) k ≡ false → k < n
unfolding is_full
is_full-eq-false n k e = ground arith

num_connected_main :
    (s : Server)
    → s.thread_pool ≡ none
    → server_num_connected_sockets s ≡ list_count s.main_thread_socket_list
unfolding server_num_connected_sockets
num_connected_main s e = rw e

accept_main :
    (socket : ℕ) (s : Server)
    → s.thread_pool ≡ none
    → accept socket s
      ≡ record s { main_thread_socket_list = some (add_to_list socket s.main_thread_socket_list) }
unfolding accept accept_in
accept_main socket s e = ap (λ p. accept_in p socket s) e

incoming_full :
    (socket : ℕ) (s : Server)
    → is_full s.max_connections (server_num_connected_sockets s) ≡ true
    → incoming_connection socket s ≡ record s { rejected = s.rejected + 1 }
unfolding incoming_connection
incoming_full socket s e = rw e

incoming_accepted :
    (socket : ℕ) (s : Server)
    → is_full s.max_connections (server_num_connected_sockets s) ≡ false
    → incoming_connection socket s ≡ accept socket s
unfolding incoming_connection
incoming_accepted socket s e = rw e

incoming_connection-Within :
    (n socket : ℕ) (s : Server) → Within n s → Within n (incoming_connection socket s)
incoming_connection-Within n socket s (pool, max, few) =
    elim (Bool-cases (is_full s.max_connections (server_num_connected_sockets s))) [
      | inl e ↦ subst (Within n) (sym (incoming_full socket s e)) (pool, max, few)
      | inr e ↦
          let free = sym (ap₂ is_full max (num_connected_main s pool)) ∙ e in
          let room = is_full-eq-false n (list_count s.main_thread_socket_list) free in
          subst (Within n) (sym (incoming_accepted socket s e ∙ accept_main socket s pool))
            (pool, max, omega (arith, list_count-add socket s.main_thread_socket_list))
    ]

Step-Within : (n : ℕ) (s t : Server) → Step s t → Within n s → Within n t
unfolding socket_disconnected
Step-Within n _ _ (connects socket s) w = incoming_connection-Within n socket s w
Step-Within n _ _ (disconnects socket s) (pool, max, few) =
    (pool, max, omega (arith, list_count-remove socket s.main_thread_socket_list))

Steps-Within : (n : ℕ) (s t : Server) → Steps s t → Within n s → Within n t
Steps-Within n _ _ (stay s) w = w
Steps-Within n _ _ (then_step r s t before step) w =
    Step-Within n s t step (Steps-Within n r s before w)

-- Without a pool, a server whose limit on connections is n and that has at most n sockets has at
-- most n after any sequence of clients connecting and disconnecting.
pub Steps-bound :
    (n : ℕ) (s t : Server)
    → s.thread_pool ≡ none
    → s.max_connections ≡ pos n
    → server_num_connected_sockets s ≤ n
    → Steps s t
    → server_num_connected_sockets t ≤ n
Steps-bound n s t pool max few steps =
    let (pool', _, few') =
      Steps-Within n s t steps (pool, max, subst (λ k. k ≤ n) (num_connected_main s pool) few) in
    subst (λ k. k ≤ n) (sym (num_connected_main t pool')) few'
