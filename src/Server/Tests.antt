-- ===== src/Server/Tests.antt =====
-- A concrete server.
use kdsoap.Prelude.{◌≤◌, none, true, ◌≡◌, refl, arith, pos}
use kdsoap.Server.{Server, server_num_connected_sockets, incoming_connection, suspend, resume}
use kdsoap.Server.Limits.{Steps, stay, then_step, connects, Steps-bound}
use kdsoap.Server.Suspension.{resume-suspend}

-- It listens at port 8080 and allows one connection.
abbrev server : Server
server = record {
  identity = 1;
  max_connections = pos 1;
  thread_pool = none;
  main_thread_socket_list = none;
  address = 9;
  port = 8080;
  address_before_suspend = 0;
  port_before_suspend = 0;
  rejected = 0;
}

abbrev two_clients : Server
two_clients = incoming_connection 6 (incoming_connection 5 server)

two_connect : Steps server two_clients
two_connect =
    then_step server (incoming_connection 5 server) two_clients
      (then_step server server (incoming_connection 5 server) (stay server) (connects 5 server))
      (connects 6 (incoming_connection 5 server))

none_at_first : server_num_connected_sockets server ≤ 1
unfolding server_num_connected_sockets
none_at_first = omega arith

Steps-bound_example : server_num_connected_sockets two_clients ≤ 1
Steps-bound_example = Steps-bound 1 server two_clients refl refl none_at_first two_connect

resume-suspend_example :
    ((resume (λ a p. true) (suspend server)).address ≡ 9)
    × ((resume (λ a p. true) (suspend server)).port ≡ 8080)
    × ((resume (λ a p. true) (suspend server)).port_before_suspend ≡ 0)
resume-suspend_example = resume-suspend (λ a p. true) server (λ e. absurd (omega arith)) refl
