-- ===== src/Pool/Tests.antt =====
-- Concrete pools.
use kdsoap.Prelude.{◌≤◌, [], ◌∷◌, some, ◌≡◌, refl, arith, map, pos, length, get_elem?, All}
use kdsoap.Pool.{
  SocketList, Thread, Pool, sum, socket_count, choose_next_thread, run_queued,
  handle_incoming_connection, num_connected_sockets, disconnect_sockets,
}
use kdsoap.Pool.Choosing.{
  choose_next_thread-Least, choose_next_thread-bound, choose_next_thread-unlimited,
}
use kdsoap.Pool.Counting.{
  IsCounted, socket_count-run_queued, num_connected_sockets-handle_incoming_connection,
  num_connected_sockets-disconnect_sockets,
}

abbrev list_of_two : SocketList
list_of_two = record { sockets = 11 ∷ 12 ∷ []; total_connection_count = 5 }

-- Two sockets of the server 1, and a connection to it on its way.
abbrev busy : Thread
busy = record {
  socket_lists = (1, list_of_two) ∷ [];
  incoming_connection_count = 1;
  queue = (13, 1) ∷ [];
}

abbrev less_busy : Thread
less_busy = record {
  socket_lists = (1, list_of_two) ∷ [];
  incoming_connection_count = 0;
  queue = [];
}

abbrev two_threads : Pool
two_threads = record { max_thread_count = pos 2; threads = busy ∷ less_busy ∷ [] }

abbrev no_limit : Pool
no_limit = record { max_thread_count = pos 0; threads = busy ∷ less_busy ∷ [] }

choose_next_thread-Least_example :
    let (q, i) = choose_next_thread two_threads in
    (t : Thread) × (get_elem? q.threads i ≡ some t)
    × All (λ u. socket_count t ≤ socket_count u) two_threads.threads
choose_next_thread-Least_example = choose_next_thread-Least two_threads

choose_next_thread-bound_example : length (choose_next_thread two_threads).0.threads ≤ 2
choose_next_thread-bound_example =
    choose_next_thread-bound two_threads 2 refl (omega arith) (omega arith)

choose_next_thread-unlimited_example : length (choose_next_thread no_limit).0.threads ≡ 3
choose_next_thread-unlimited_example =
    choose_next_thread-unlimited no_limit (omega arith)
      ((λ e. absurd (omega arith)), ((λ e. absurd (omega arith)), tt))

socket_count-run_queued_example :
    (socket_count (run_queued busy) ≡ socket_count busy) × IsCounted (run_queued busy)
socket_count-run_queued_example = socket_count-run_queued busy refl

num_connected_sockets-handle_incoming_connection_example :
    let q = handle_incoming_connection 14 1 two_threads in
    (sum (map socket_count q.threads) ≡ 6)
    × (num_connected_sockets 1 q ≡ num_connected_sockets 1 two_threads)
num_connected_sockets-handle_incoming_connection_example =
    num_connected_sockets-handle_incoming_connection 14 1 1 two_threads

num_connected_sockets-disconnect_sockets_example :
    num_connected_sockets 1 (disconnect_sockets 1 two_threads) ≡ 0
num_connected_sockets-disconnect_sockets_example =
    num_connected_sockets-disconnect_sockets 1 two_threads
