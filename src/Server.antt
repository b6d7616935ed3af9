-- ===== src/Server.antt =====
-- The listening server: incomingConnection, the counts, suspend and resume of
-- src/KDSoapServer/KDSoapServer.cpp, with one list of sockets in the main thread or with a pool.
pub mod Limits
pub mod Suspension
mod Tests
use kdsoap.Prelude.{
  ℕ, zero, suc, ◌+◌, Option, none, some, Bool, true, false, ◌&&◌, ◌==◌, if◌then◌else◌, ℤ, pos,
  negsuc, ltb_ℤ, leb_ℤ,
}
use kdsoap.Pool.{
  Pool, SocketList, new_list, list_socket_count, add_socket, remove_socket, clear,
  reset_total_connection_count, num_connected_sockets, pool_total_connection_count,
  pool_reset_total_connection_count, handle_incoming_connection, disconnect_sockets,
}

-- Addresses and ports are numbers; `port` is serverPort(), 0 while the server does not listen.
pub record Server : Type 0 where
  pub identity : ℕ
  pub max_connections : ℤ
  pub thread_pool : Option Pool
  pub main_thread_socket_list : Option SocketList
  pub address : ℕ
  pub port : ℕ
  pub address_before_suspend : ℕ
  pub port_before_suspend : ℕ
  pub rejected : ℕ

-- Where there is no list yet.
pub list_count : Option SocketList → ℕ
list_count none = 0
list_count (some l) = list_socket_count l

list_total : Option SocketList → ℕ
list_total none = 0
list_total (some l) = l.total_connection_count

change : (SocketList → SocketList) → Option SocketList → Option SocketList
change f none = none
change f (some l) = some (f l)

add_to_list : ℕ → Option SocketList → SocketList
unfolding add_socket
add_to_list socket none = add_socket socket new_list
add_to_list socket (some l) = add_socket socket l

-- KDSoapServer::numConnectedSockets
pub server_num_connected_sockets : Server → ℕ
unfolding list_count
server_num_connected_sockets s = elim s.thread_pool [
  | none ↦ list_count s.main_thread_socket_list
  | some p ↦ num_connected_sockets s.identity p
]

-- KDSoapServer::totalConnectionCount
pub server_total_connection_count : Server → ℕ
unfolding list_total
server_total_connection_count s = elim s.thread_pool [
  | none ↦ list_total s.main_thread_socket_list
  | some p ↦ pool_total_connection_count s.identity p
]

-- KDSoapServer::resetTotalConnectionCount
pub server_reset_total_connection_count : Server → Server
unfolding change
server_reset_total_connection_count s = elim s.thread_pool [
  | none ↦ record s {
    main_thread_socket_list = change reset_total_connection_count s.main_thread_socket_list;
  }
  | some p ↦ record s { thread_pool = some (pool_reset_total_connection_count s.identity p) }
]

-- max > -1 && numSockets >= max
pub is_full : ℤ → ℕ → Bool
is_full max num_sockets = ltb_ℤ (negsuc 0) max && leb_ℤ max (pos num_sockets)

accept_in : Option Pool → ℕ → Server → Server
unfolding add_to_list
accept_in none socket s = record s {
  main_thread_socket_list = some (add_to_list socket s.main_thread_socket_list);
}
accept_in (some p) socket s = record s {
  thread_pool = some (handle_incoming_connection socket s.identity p);
}

pub accept : ℕ → Server → Server
unfolding accept_in
accept socket s = accept_in s.thread_pool socket s

pub incoming_connection : ℕ → Server → Server
unfolding is_full accept server_num_connected_sockets
incoming_connection socket s =
    if is_full s.max_connections (server_num_connected_sockets s)
    then record s { rejected = s.rejected + 1 }
    else accept socket s

-- A client of a server without a pool disconnects: the lambda connected in
-- KDSoapSocketList::handleIncomingConnection.
pub socket_disconnected : ℕ → Server → Server
unfolding change
socket_disconnected socket s = record s {
  main_thread_socket_list = change (remove_socket socket) s.main_thread_socket_list;
}

disconnect_in : Option Pool → Server → Server
unfolding change
disconnect_in none s = record s { main_thread_socket_list = change clear s.main_thread_socket_list }
disconnect_in (some p) s = record s { thread_pool = some (disconnect_sockets s.identity p) }

disconnect_all : Server → Server
unfolding disconnect_in
disconnect_all s = disconnect_in s.thread_pool s

-- close() makes serverPort() 0 and the address null.
pub suspend : Server → Server
unfolding disconnect_all
suspend s = disconnect_all (record s {
  port_before_suspend = s.port;
  address_before_suspend = s.address;
  port = 0;
  address = 0;
})

-- `listen` tells whether QTcpServer::listen succeeds for an address and a port.
pub resume : (ℕ → ℕ → Bool) → Server → Server
resume listen s =
    if s.port_before_suspend == 0
    then s
    else if listen s.address_before_suspend s.port_before_suspend
    then record s {
      address = s.address_before_suspend;
      port = s.port_before_suspend;
      port_before_suspend = 0;
    }
    else record s { port_before_suspend = 0 }
