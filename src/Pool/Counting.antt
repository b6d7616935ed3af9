-- ===== src/Pool/Counting.antt =====
-- How connections are counted on their way to a socket: KDSoapThreadPool, KDSoapServerThread and
-- KDSoapSocketList.
use kdsoap.Prelude.{
  ℕ, zero, suc, ◌+◌, List, [], ◌∷◌, ◌++◌, none, some, Bool-cases, inl, inr, ◌≡◌, refl, sym, ◌∙◌, ap,
  subst, arith, map, if◌then◌else◌, length, get_elem?, pos, eq_ℤ,
}
use kdsoap.Pool.{
  Thread, Pool, SocketList, sum, new_thread, socket_count, lists_socket_count, add_socket,
  with_list, run_queued, run_call, Choice, idle, best, look, queue_connection, update, choose,
  choose_next_thread, create_thread, handle_incoming_connection, num_connected_sockets,
  socket_count_for_server, list_of, change_list, clear, list_socket_count, disconnect_sockets,
  disconnect_sockets_for_server, run_all,
}
use kdsoap.Pool.Choosing.{choose_next_thread-Least}

-- m_incomingConnectionCount is the number of queued calls.
abbrev pub IsCounted : Thread → Type 0
IsCounted t = t.incoming_connection_count ≡ length t.queue

lists_socket_count-with_list :
    (server socket : ℕ) (ls : List (ℕ × SocketList))
    → lists_socket_count (with_list server (add_socket socket) ls) ≡ lists_socket_count ls + 1
unfolding with_list add_socket
lists_socket_count-with_list server socket [] = refl
lists_socket_count-with_list server socket ((s, l) ∷ ls) =
    ground (arith, lists_socket_count-with_list server socket ls)

run_call-IsCounted :
    (t : Thread) (calls : List (ℕ × ℕ))
    → t.queue ≡ calls
    → t.incoming_connection_count ≡ length calls
    → (socket_count (run_call t calls) ≡ socket_count t) × IsCounted (run_call t calls)
unfolding run_call
run_call-IsCounted t [] e h = (refl, h ∙ sym (ap length e))
run_call-IsCounted t ((socket, server) ∷ calls) e h =
    (omega (arith, lists_socket_count-with_list server socket t.socket_lists), omega arith)

-- A thread whose count of incoming connections is the number of its queued calls keeps its number
-- of connections when it runs a queued call, and its count of incoming connections stays that
-- number.
pub socket_count-run_queued :
    (t : Thread)
    → IsCounted t
    → (socket_count (run_queued t) ≡ socket_count t) × IsCounted (run_queued t)
unfolding run_queued
socket_count-run_queued t h = run_call-IsCounted t t.queue refl h

module _ (f : Thread → ℕ) where
  sum-snoc : (ts : List Thread) (t : Thread) → sum (map f (ts ++ t ∷ [])) ≡ sum (map f ts) + f t
  sum-snoc [] t = omega arith
  sum-snoc (u ∷ ts) t = omega (arith, sum-snoc ts t)

  sum-choose :
      (p : Pool) (c : Choice)
      → f new_thread ≡ 0
      → sum (map f (choose p c).0.threads) ≡ sum (map f p.threads)
  unfolding choose
  sum-choose p (idle i) z = refl
  sum-choose p (best none) z = omega (arith, sum-snoc p.threads new_thread)
  sum-choose p (best (some (i, n))) z =
      elim (Bool-cases (eq_ℤ (pos (length p.threads)) p.max_thread_count)) [
        | inl e ↦
            subst
              (λ b.
                sum (map f (if b then (p, i) else create_thread p).0.threads)
                ≡ sum (map f p.threads))
              (sym e) refl
        | inr e ↦
            subst
              (λ b.
                sum (map f (if b then (p, i) else create_thread p).0.threads)
                ≡ sum (map f p.threads))
              (sym e) (omega (arith, sum-snoc p.threads new_thread))
      ]

  sum-update :
      (g : Thread → Thread) (d : ℕ)
      → ((t : Thread) → f (g t) ≡ f t + d)
      → (ts : List Thread) (i : ℕ) (t : Thread) → get_elem? ts i ≡ some t
      → sum (map f (update i g ts)) ≡ sum (map f ts) + d
  sum-update g d k [] i t h = cc
  sum-update g d k (u ∷ ts) zero t h = omega (arith, k u)
  sum-update g d k (u ∷ ts) (suc i) t h = omega (arith, sum-update g d k ts i t h)

  sum-handle_incoming_connection :
      (socket server d : ℕ) (p : Pool)
      → f new_thread ≡ 0
      → ((t : Thread) → f (queue_connection socket server t) ≡ f t + d)
      → sum (map f (handle_incoming_connection socket server p).threads) ≡ sum (map f p.threads) + d
  unfolding handle_incoming_connection choose_next_thread
  sum-handle_incoming_connection socket server d p z k =
      let (t, there, _) = choose_next_thread-Least p in
      sum-update (queue_connection socket server) d k (choose_next_thread p).0.threads
        (choose_next_thread p).1 t there
      ∙ ap (λ n. n + d) (sum-choose p (look 0 none p.threads) z)

none_yet : (server : ℕ) → socket_count_for_server server new_thread ≡ 0
unfolding socket_count_for_server list_of
none_yet server = refl

not_counted_yet :
    (socket server any_server : ℕ) (t : Thread)
    → socket_count_for_server any_server (queue_connection socket server t)
      ≡ socket_count_for_server any_server t + 0
unfolding socket_count_for_server
not_counted_yet socket server any_server t = omega arith

-- A connection that a pool accepts is one more among the connections of its threads, those on
-- their way included, and leaves the number of connected sockets of every server as it was.
pub num_connected_sockets-handle_incoming_connection :
    (socket server any_server : ℕ) (p : Pool)
    → let q = handle_incoming_connection socket server p in
      (sum (map socket_count q.threads) ≡ sum (map socket_count p.threads) + 1)
      × (num_connected_sockets any_server q ≡ num_connected_sockets any_server p)
unfolding num_connected_sockets
num_connected_sockets-handle_incoming_connection socket server any_server p = (
  sum-handle_incoming_connection socket_count socket server 1 p refl (λ t. omega arith),
  sum-handle_incoming_connection (socket_count_for_server any_server) socket server 0 p
        (none_yet any_server) (λ t. not_counted_yet socket server any_server t)
      ∙ omega arith,
)

none_left :
    (server : ℕ) (ls : List (ℕ × SocketList))
    → ◌≡◌ {A = ℕ}
        (elim (list_of server (change_list server clear ls)) [
          | none ↦ 0
          | some l ↦ list_socket_count l
        ])
        0
unfolding list_of change_list clear
none_left server [] = refl
none_left server ((s, l) ∷ ls) = ground (arith, none_left server ls)

disconnect_sockets_for_server-none :
    (server : ℕ) (t : Thread)
    → socket_count_for_server server (disconnect_sockets_for_server server t) ≡ 0
unfolding disconnect_sockets_for_server socket_count_for_server
disconnect_sockets_for_server-none server t = none_left server t.socket_lists

sum-zero :
    (f : Thread → ℕ) (g : Thread → Thread)
    → ((t : Thread) → f (g t) ≡ 0)
    → (ts : List Thread) → sum (map f (map g ts)) ≡ 0
sum-zero f g h [] = refl
sum-zero f g h (t ∷ ts) = omega (arith, h t, sum-zero f g h ts)

-- A pool has no socket of a server after it has disconnected that server's sockets, whatever calls
-- were queued before.
pub num_connected_sockets-disconnect_sockets :
    (server : ℕ) (p : Pool) → num_connected_sockets server (disconnect_sockets server p) ≡ 0
unfolding num_connected_sockets disconnect_sockets
num_connected_sockets-disconnect_sockets server p =
    sum-zero (socket_count_for_server server)
      (λ t. disconnect_sockets_for_server server (run_all (length t.queue) t))
      (λ t. disconnect_sockets_for_server-none server (run_all (length t.queue) t)) p.threads
