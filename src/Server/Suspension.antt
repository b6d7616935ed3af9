-- ===== src/Server/Suspension.antt =====
-- suspend() and resume() of a server.
use kdsoap.Prelude.{
  ℕ, Option, none, some, Option-cases, Bool, true, false, inl, inr, ◌≡◌, ◌≢◌, refl, ◌∙◌, ap, ap₂,
  arith, ◌==◌,
}
use kdsoap.Pool.{Pool, SocketList, clear, num_connected_sockets}
use kdsoap.Pool.Counting.{num_connected_sockets-disconnect_sockets}
use kdsoap.Server.{
  Server, list_count, change, server_num_connected_sockets, disconnect_all, disconnect_in, suspend,
  resume,
}

disconnected_none : (l : Option SocketList) → list_count (change clear l) ≡ 0
unfolding list_count change clear
disconnected_none none = refl
disconnected_none (some l) = refl

count_in : Option Pool → ℕ → Option SocketList → ℕ
count_in none server l = list_count l
count_in (some p) server l = num_connected_sockets server p

server_num_connected_in :
    (s : Server)
    → server_num_connected_sockets s ≡ count_in s.thread_pool s.identity s.main_thread_socket_list
unfolding server_num_connected_sockets count_in
server_num_connected_in s = elim (Option-cases s.thread_pool) [ inl e ↦ rw e | inr (p, e) ↦ rw e ]

disconnect_in-none :
    (p : Option Pool) (s : Server)
    → s.thread_pool ≡ p
    → server_num_connected_sockets (disconnect_in p s) ≡ 0
unfolding disconnect_in count_in
disconnect_in-none none s e =
    server_num_connected_in (disconnect_in none s)
    ∙ ap (λ q. count_in q s.identity (change clear s.main_thread_socket_list)) e
    ∙ disconnected_none s.main_thread_socket_list
disconnect_in-none (some p) s e =
    server_num_connected_in (disconnect_in (some p) s)
    ∙ num_connected_sockets-disconnect_sockets s.identity p

-- What disconnecting keeps.
abbrev Keeps : Server → Server → Type 0
Keeps s t =
    (t.port ≡ s.port)
    × (t.port_before_suspend ≡ s.port_before_suspend)
    × (t.address_before_suspend ≡ s.address_before_suspend)

disconnect_in-Keeps : (p : Option Pool) (s : Server) → Keeps s (disconnect_in p s)
unfolding disconnect_in
disconnect_in-Keeps none s = (refl, refl, refl)
disconnect_in-Keeps (some p) s = (refl, refl, refl)

resume_listening :
    (listen : ℕ → ℕ → Bool) (s : Server)
    → (s.port_before_suspend == 0) ≡ false
    → listen s.address_before_suspend s.port_before_suspend ≡ true
    → resume listen s ≡ record s {
      address = s.address_before_suspend;
      port = s.port_before_suspend;
      port_before_suspend = 0;
    }
unfolding resume
resume_listening listen s e f = rw (e, f)

open_again : (n m : ℕ) → n ≡ m → m ≢ 0 → (n == 0) ≡ false
open_again n m e h = ground arith

-- A server that is suspended has no connected sockets and does not listen.
suspend-none :
    (s : Server) → (server_num_connected_sockets (suspend s) ≡ 0) × ((suspend s).port ≡ 0)
unfolding suspend disconnect_all
suspend-none s = (
  disconnect_in-none s.thread_pool
      (record s {
        port_before_suspend = s.port;
        address_before_suspend = s.address;
        port = 0;
        address = 0;
      })
      refl,
  (disconnect_in-Keeps s.thread_pool _).0,
)

-- A server that listens, is suspended and is resumed listens at the address and port it had, where
-- listening succeeds there, and has no port kept for another resumption.
pub resume-suspend :
    (listen : ℕ → ℕ → Bool) (s : Server)
    → s.port ≢ 0
    → listen s.address s.port ≡ true
    → ((resume listen (suspend s)).address ≡ s.address)
      × ((resume listen (suspend s)).port ≡ s.port)
      × ((resume listen (suspend s)).port_before_suspend ≡ 0)
unfolding suspend disconnect_all
resume-suspend listen s open_port ok =
    let t = suspend s in
    let (_, same_port, same_address) = disconnect_in-Keeps s.thread_pool (record s {
      port_before_suspend = s.port;
      address_before_suspend = s.address;
      port = 0;
      address = 0;
    }) in
    let done =
      resume_listening listen t (open_again t.port_before_suspend s.port same_port open_port)
        (ap₂ listen same_address same_port ∙ ok) in
    (
      ap (λ r. r.address) done ∙ same_address,
      ap (λ r. r.port) done ∙ same_port,
      ap (λ r. r.port_before_suspend) done,
    )
