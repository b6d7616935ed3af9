-- ===== src/Pool.antt =====
-- The threads that serve connections: src/KDSoapServer/KDSoapThreadPool.cpp,
-- src/KDSoapServer/KDSoapServerThread.cpp and src/KDSoapServer/KDSoapSocketList.cpp. Servers and
-- sockets are numbers. A call that is queued for another thread's event loop stands in `queue` until
-- that thread runs it.
pub mod Choosing
pub mod Counting
mod Tests
use kdsoap.Prelude.{
  ℕ, zero, suc, ◌+◌, ◌-◌, List, [], ◌∷◌, ◌++◌, Option, none, some, Bool, true, false, map, ltb,
  ◌==◌, if◌then◌else◌, ℤ, pos, eq_ℤ, length,
}

-- m_sockets and m_totalConnectionCount
pub record SocketList : Type 0 where
  pub sockets : List ℕ
  pub total_connection_count : ℕ

-- m_socketLists, m_incomingConnectionCount, and the calls of handleIncomingConnection(socket,
-- server) that wait in the event loop.
pub record Thread : Type 0 where
  pub socket_lists : List (ℕ × SocketList)
  pub incoming_connection_count : ℕ
  pub queue : List (ℕ × ℕ)

pub record Pool : Type 0 where
  pub max_thread_count : ℤ
  pub threads : List Thread

-- What the loop over the threads finds: an idle thread, or the best thread with its count.
pub data Choice : Type 0 where
  idle : ℕ → Choice
  best : Option (ℕ × ℕ) → Choice

abbrev pub sum : List ℕ → ℕ
sum [] = 0
sum (n ∷ ns) = n + sum ns

abbrev pub new_list : SocketList
new_list = record { sockets = []; total_connection_count = 0 }

abbrev pub new_thread : Thread
new_thread = record { socket_lists = []; incoming_connection_count = 0; queue = [] }

-- KDSoapSocketList::socketCount
abbrev pub list_socket_count : SocketList → ℕ
list_socket_count l = length l.sockets

-- KDSoapSocketList::handleIncomingConnection: m_sockets.insert(socket)
unfoldable pub add_socket : ℕ → SocketList → SocketList
add_socket socket l = record l { sockets = socket ∷ l.sockets }

unfoldable pub remove : ℕ → List ℕ → List ℕ
remove n [] = []
remove n (m ∷ ms) = if n == m then ms else m ∷ remove n ms

-- A client that disconnects.
unfoldable pub remove_socket : ℕ → SocketList → SocketList
unfolding remove
remove_socket socket l = record l { sockets = remove socket l.sockets }

unfoldable pub clear : SocketList → SocketList
clear l = record l { sockets = [] }

pub increase_connection_count : SocketList → SocketList
increase_connection_count l = record l { total_connection_count = l.total_connection_count + 1 }

pub reset_total_connection_count : SocketList → SocketList
reset_total_connection_count l = record l { total_connection_count = 0 }

-- m_socketLists.value(server)
pub list_of : ℕ → List (ℕ × SocketList) → Option SocketList
list_of server [] = none
list_of server ((s, l) ∷ ls) = if s == server then some l else list_of server ls

-- A change of one server's list, where it is there.
pub change_list : ℕ → (SocketList → SocketList) → List (ℕ × SocketList) → List (ℕ × SocketList)
change_list server f [] = []
change_list server f ((s, l) ∷ ls) =
    if s == server then (s, f l) ∷ ls else (s, l) ∷ change_list server f ls

-- socketListForServer, with a change of the list.
pub with_list : ℕ → (SocketList → SocketList) → List (ℕ × SocketList) → List (ℕ × SocketList)
with_list server f [] = (server, f new_list) ∷ []
with_list server f ((s, l) ∷ ls) =
    if s == server then (s, f l) ∷ ls else (s, l) ∷ with_list server f ls

abbrev pub lists_socket_count : List (ℕ × SocketList) → ℕ
lists_socket_count [] = 0
lists_socket_count ((s, l) ∷ ls) = list_socket_count l + lists_socket_count ls

-- KDSoapServerThreadImpl::socketCount
abbrev pub socket_count : Thread → ℕ
socket_count t = lists_socket_count t.socket_lists + t.incoming_connection_count

-- KDSoapServerThreadImpl::socketCountForServer and totalConnectionCountForServer
pub socket_count_for_server : ℕ → Thread → ℕ
unfolding list_of
socket_count_for_server server t = elim (list_of server t.socket_lists) [
  | none ↦ 0
  | some l ↦ list_socket_count l
]

pub total_connection_count_for_server : ℕ → Thread → ℕ
unfolding list_of
total_connection_count_for_server server t = elim (list_of server t.socket_lists) [
  | none ↦ 0
  | some l ↦ l.total_connection_count
]

-- KDSoapServerThread::handleIncomingConnection, in the main thread: addIncomingConnection, and the
-- call that is queued.
abbrev pub queue_connection : ℕ → ℕ → Thread → Thread
queue_connection socket server t = record t {
  incoming_connection_count = t.incoming_connection_count + 1;
  queue = t.queue ++ (socket, server) ∷ [];
}

-- KDSoapServerThreadImpl::handleIncomingConnection, when the thread comes to the first queued call.
run_call : Thread → List (ℕ × ℕ) → Thread
unfolding with_list add_socket
run_call t [] = t
run_call t ((socket, server) ∷ calls) = record {
  socket_lists = with_list server (add_socket socket) t.socket_lists;
  incoming_connection_count = t.incoming_connection_count - 1;
  queue = calls;
}

pub run_queued : Thread → Thread
unfolding run_call
run_queued t = run_call t t.queue

-- disconnectSocketsForServer and resetTotalConnectionCountForServer
pub disconnect_sockets_for_server : ℕ → Thread → Thread
unfolding change_list clear
disconnect_sockets_for_server server t = record t {
  socket_lists = change_list server clear t.socket_lists;
}

pub reset_total_for_server : ℕ → Thread → Thread
unfolding change_list reset_total_connection_count
reset_total_for_server server t = record t {
  socket_lists = change_list server reset_total_connection_count t.socket_lists;
}

better : Option (ℕ × ℕ) → ℕ → ℕ → Option (ℕ × ℕ)
better none i sc = some (i, sc)
better (some (j, min_socket_count)) i sc =
    if ltb sc min_socket_count then some (i, sc) else some (j, min_socket_count)

-- The loop over the threads, at the thread i.
pub look : ℕ → Option (ℕ × ℕ) → List Thread → Choice
unfolding better
look i found [] = best found
look i found (t ∷ ts) =
    let on = look (suc i) (better found i (socket_count t)) ts in
    if socket_count t == 0 then idle i else on

abbrev create_thread : Pool → Pool × ℕ
create_thread p = (record p { threads = p.threads ++ new_thread ∷ [] }, length p.threads)

pub choose : Pool → Choice → Pool × ℕ
choose p (idle i) = (p, i)
choose p (best none) = create_thread p
choose p (best (some (i, sc))) =
    if eq_ℤ (pos (length p.threads)) p.max_thread_count then (p, i) else create_thread p

-- The pool, with a new thread where one is created, and the place of the thread chosen.
pub choose_next_thread : Pool → Pool × ℕ
unfolding look choose
choose_next_thread p = choose p (look 0 none p.threads)

abbrev pub update : ℕ → (Thread → Thread) → List Thread → List Thread
update i f [] = []
update zero f (t ∷ ts) = f t ∷ ts
update (suc i) f (t ∷ ts) = t ∷ update i f ts

pub handle_incoming_connection : ℕ → ℕ → Pool → Pool
unfolding choose_next_thread
handle_incoming_connection socket server p =
    let (q, i) = choose_next_thread p in
    record q { threads = update i (queue_connection socket server) q.threads }

pub num_connected_sockets : ℕ → Pool → ℕ
unfolding socket_count_for_server
num_connected_sockets server p = sum (map (socket_count_for_server server) p.threads)

pub pool_total_connection_count : ℕ → Pool → ℕ
unfolding total_connection_count_for_server
pool_total_connection_count server p =
    sum (map (total_connection_count_for_server server) p.threads)

pub pool_reset_total_connection_count : ℕ → Pool → Pool
unfolding reset_total_for_server
pool_reset_total_connection_count server p = record p {
  threads = map (reset_total_for_server server) p.threads;
}

-- The calls that are queued run in order, and the disconnection, queued last, behind them; the
-- semaphore waits for every thread.
run_all : ℕ → Thread → Thread
unfolding run_queued
run_all zero t = t
run_all (suc n) t = run_all n (run_queued t)

pub disconnect_sockets : ℕ → Pool → Pool
unfolding disconnect_sockets_for_server run_all
disconnect_sockets server p = record p {
  threads = map (λ t. disconnect_sockets_for_server server (run_all (length t.queue) t)) p.threads;
}
