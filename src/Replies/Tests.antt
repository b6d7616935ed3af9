-- ===== src/Replies/Tests.antt =====
-- Replies and delayed replies on concrete requests.
use kdsoap.Prelude.{
  ℕ, Text, List, [], ◌∷◌, ◌++◌, Option, none, some, true, false, not, codes, ◌≡◌, refl,
}
use kdsoap.Value.{new_value, more, empty, is_nil, child_values}
use kdsoap.Value.Samples.{texts}
use kdsoap.Message.{new_message, set_fault_flag}
use kdsoap.Replies.{
  ServerObject, new_server_object, set_fault, set_request_headers, store_fault_attributes,
}
use kdsoap.Replies.Faults.{detail_in, detail_in-store_fault_attributes, fault_text_of}
use kdsoap.Replies.Delayed.{
  Conduct, Connection, Reach, here, next, arrived, new_connection, takes_handle, ends_too_early,
  replies_at_once, IsSettled, deliver, postpones, replies_to, send_delayed_response,
  Reach-IsSettled, send_delayed_response-sent,
}

abbrev clean : ServerObject (Option Text)
clean = new_server_object texts

fault_text_printed :
    fault_text_of texts (codes "Server") (codes "Oops") (codes "me") (codes "why")
    ≡ codes "Fault code Server: Oops (me). Error detail: why"
unfolding fault_text_of kdsoap.Prelude.ends_with kdsoap.Prelude.eq_text
fault_text_printed = refl

-- A server object that has answered a fault with a value for its detail.
abbrev used : ServerObject (Option Text)
used = record clean { detail_value = new_value texts (codes "number") (some (codes "42")) [] [] }

some_detail : is_nil texts used.detail_value ≡ false
unfolding is_nil
some_detail = refl

detail_in-store_fault_attributes_example :
    child_values (
      detail_in texts (
        store_fault_attributes texts
          (set_fault
            (codes "Server")
            (codes "Oops")
            []
            (codes "why")
            (set_request_headers [] [] used))
          (set_fault_flag true (new_message texts))))
    ≡ more used.detail_value empty
detail_in-store_fault_attributes_example =
    detail_in-store_fault_attributes texts used [] [] (codes "Server") (codes "Oops") []
      (codes "why") some_detail

-- A request answered at once, one that ends too early, and one whose reply is outstanding.
abbrev waiting : Connection ℕ
waiting =
    deliver (takes_handle 0 ∷ [])
      (deliver (ends_too_early ∷ []) (deliver (replies_at_once 7 ∷ []) new_connection))

delayed : waiting.delayed_response ≡ true
unfolding deliver
delayed = refl

abbrev path : Reach new_connection waiting
path = next (next (next here (arrived _ _)) (arrived _ _)) (arrived _ _)

Reach-IsSettled_example : IsSettled waiting
Reach-IsSettled_example = Reach-IsSettled path

-- Its reply is sent while two more requests have arrived, of which the first is answered at once.
abbrev arrivals : List (Conduct ℕ)
arrivals = replies_at_once 9 ∷ takes_handle 0 ∷ []

send_delayed_response-sent_example :
    ((send_delayed_response (deliver arrivals) true 8 waiting).socket_enabled
      ≡ not (postpones arrivals))
    × ((send_delayed_response (deliver arrivals) true 8 waiting).sent
        ≡ waiting.sent ++ 8 ∷ replies_to arrivals)
send_delayed_response-sent_example = send_delayed_response-sent arrivals 8 path delayed
