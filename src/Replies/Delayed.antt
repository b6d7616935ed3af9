-- ===== src/Replies/Delayed.antt =====
-- Delayed replies: prepareDelayedResponse and sendDelayedResponse of
-- src/KDSoapServer/KDSoapServerObjectInterface.cpp, KDSoapDelayedResponseHandle.cpp, and what
-- handleRequest, slotReadyRead, sendDelayedReply, setResponseDelayed and setSocketEnabled of
-- KDSoapServerSocket.cpp do about them. The bytes of a request are Socket's; here a request is what
-- is done about its reply.
use kdsoap.Prelude.{
  ℕ, ◌+◌, List, [], ◌∷◌, ◌++◌, Bool, true, false, not, same_bool, if◌then◌else◌, length,
  length-append, ◌≡◌, refl, arith, append_assoc, append-nil, sym, ◌∙◌, subst, Bool-cases, inl, inr,
}

-- What comes of the reply to a request: none, where handleRequest returns for a document that ends
-- too early; an answer at once, also one that handleRequest writes without a call; or a handle that
-- the server object takes, by which it may send a reply before its call returns with a response, the
-- last argument.
pub data Conduct (R : Type 0) : Type 0 where
  ends_too_early : Conduct R
  replies_at_once : R → Conduct R
  takes_handle : R → Conduct R
  takes_handle_and_sends : R → R → Conduct R

-- m_delayedResponse and m_socketEnabled, with the requests that were handled so far, the last one
-- first, and the replies that were sent. `R` is the type of the replies.
pub record Connection (R : Type 0) : Type 0 where
  pub delayed_response : Bool
  pub socket_enabled : Bool
  pub handled : List (Conduct R)
  pub sent : List R

module _ {R : Type 0} where
  abbrev pub new_connection : Connection R
  new_connection = record {
    delayed_response = false;
    socket_enabled = true;
    handled = [];
    sent = [];
  }

  pub set_response_delayed : Connection R → Connection R
  set_response_delayed c = record c { delayed_response = true }

  -- setSocketEnabled; `ready` is what slotReadyRead does with what has arrived by then.
  pub enable_socket : (Connection R → Connection R) → Bool → Connection R → Connection R
  enable_socket ready enabled c =
      if same_bool c.socket_enabled enabled
      then c
      else let d : Connection R = record c { socket_enabled = enabled } in
        if enabled then ready d else d

  pub send : R → Connection R → Connection R
  send r c = record c { sent = c.sent ++ r ∷ [] }

  pub send_delayed_reply : (Connection R → Connection R) → R → Connection R → Connection R
  unfolding send enable_socket
  send_delayed_reply ready r c =
      enable_socket ready true (record (send r c) { delayed_response = false })

  -- sendDelayedResponse: a handle whose socket is gone does nothing.
  unfoldable pub send_delayed_response :
      (Connection R → Connection R) → Bool → R → Connection R → Connection R
  unfolding send_delayed_reply
  send_delayed_response ready alive r c = if alive then send_delayed_reply ready r c else c

  -- The end of handleRequest, once the call is made.
  after_call : (Connection R → Connection R) → R → Connection R → Connection R
  unfolding enable_socket send
  after_call ready r c = if c.delayed_response then enable_socket ready false c else send r c

  -- What happens to the connection until the request is handled.
  handle : (Connection R → Connection R) → Conduct R → Connection R → Connection R
  unfolding set_response_delayed send_delayed_reply after_call
  handle ready ends_too_early c = c
  handle ready (replies_at_once r) c = after_call ready r c
  handle ready (takes_handle r) c = after_call ready r (set_response_delayed c)
  handle ready (takes_handle_and_sends early r) c =
      after_call ready r (send_delayed_reply ready early (set_response_delayed c))

  -- handleRequest
  unfoldable pub handle_call :
      (Connection R → Connection R) → Conduct R → Connection R → Connection R
  unfolding handle
  handle_call ready conduct c = handle ready conduct (record c { handled = conduct ∷ c.handled })

  -- slotReadyRead, where the first of the requests has arrived, and the others have when it is called
  -- again before the first is done with. Where none has, it returns, and where the socket is disabled.
  unfoldable pub deliver : List (Conduct R) → Connection R → Connection R
  unfolding handle_call
  deliver [] c = c
  deliver (conduct ∷ later) c =
      let handled = handle_call (deliver later) conduct c in if c.socket_enabled then handled else c

-- What can happen to a connection: bytes arrive, which complete a request or none, or the server
-- object sends the reply that is outstanding, after its call has returned.
pub data Step {R : Type 0} : Connection R → Connection R → Type 0 where
  arrived : (c : Connection R) (requests : List (Conduct R)) → Step c (deliver requests c)
  replied :
      (c : Connection R) (requests : List (Conduct R)) (alive : Bool) (r : R)
      → c.delayed_response ≡ true
      → Step c (send_delayed_response (deliver requests) alive r c)

pub data Reach {R : Type 0} (c : Connection R) : Connection R → Type 0 where
  here : Reach c c
  next : {d e : Connection R} → Reach c d → Step d e → Reach c e

module _ {R : Type 0} where
  -- How many replies a request gets in the end.
  unfoldable pub replies_due : List (Conduct R) → ℕ
  replies_due [] = 0
  replies_due (ends_too_early ∷ cs) = replies_due cs
  replies_due (replies_at_once r ∷ cs) = replies_due cs + 1
  replies_due (takes_handle r ∷ cs) = replies_due cs + 1
  replies_due (takes_handle_and_sends early r ∷ cs) = replies_due cs + 2

-- The socket is enabled exactly while no reply is outstanding, and each handled request has its
-- replies, but for the outstanding one.
pub record IsSettled {R : Type 0} (c : Connection R) : Type 0 where
  pub enabled : c.socket_enabled ≡ not c.delayed_response
  pub counted : replies_due c.handled ≡ length c.sent + (if c.delayed_response then 1 else 0)

module _ {R : Type 0} where
  abbrev OneMore : List R → R → Type 0
  OneMore rs r = length (rs ++ r ∷ []) ≡ length rs + 1

  more : (rs : List R) (r : R) → OneMore rs r
  more rs r = length-append rs (r ∷ [])

  -- A request that is taken while the socket is enabled is settled, whatever becomes of it.
  handle_call-IsSettled :
      (ready : Connection R → Connection R) (conduct : Conduct R) (c : Connection R)
      → IsSettled c
      → c.socket_enabled ≡ true
      → IsSettled (handle_call ready conduct c)
  unfolding handle_call send enable_socket set_response_delayed replies_due
  handle_call-IsSettled ready ends_too_early c s e = ground arith
  handle_call-IsSettled ready (replies_at_once r) c s e = ground (arith, more c.sent r)
  handle_call-IsSettled ready (takes_handle r) c s e = ground arith
  handle_call-IsSettled ready (takes_handle_and_sends early r) c s e =
      ground (arith, more c.sent early, more (c.sent ++ early ∷ []) r)

  deliver_enabled :
      (conduct : Conduct R) (later : List (Conduct R)) (c : Connection R)
      → c.socket_enabled ≡ true
      → deliver (conduct ∷ later) c ≡ handle_call (deliver later) conduct c
  unfolding deliver
  deliver_enabled conduct later c e = simp e

  deliver_disabled :
      (conduct : Conduct R) (later : List (Conduct R)) (c : Connection R)
      → c.socket_enabled ≡ false
      → deliver (conduct ∷ later) c ≡ c
  unfolding deliver
  deliver_disabled conduct later c e = simp e

  deliver-IsSettled :
      (requests : List (Conduct R)) (c : Connection R)
      → IsSettled c
      → IsSettled (deliver requests c)
  unfolding deliver
  deliver-IsSettled [] c s = s
  deliver-IsSettled (conduct ∷ later) c s = elim (Bool-cases c.socket_enabled) [
    | inl e ↦
        subst IsSettled (sym (deliver_enabled conduct later c e))
          (handle_call-IsSettled (deliver later) conduct c s e)
    | inr e ↦ subst IsSettled (sym (deliver_disabled conduct later c e)) s
  ]

  -- The connection at which slotReadyRead is called when a delayed reply was sent.
  abbrev ready_again : R → Connection R → Connection R
  ready_again r c = record c {
    delayed_response = false;
    socket_enabled = true;
    sent = c.sent ++ r ∷ [];
  }

  ready_again-IsSettled :
      (r : R) (c : Connection R)
      → IsSettled c
      → c.delayed_response ≡ true
      → IsSettled (ready_again r c)
  ready_again-IsSettled r c s e = ground (arith, more c.sent r)

  send_delayed_response_lem :
      (ready : Connection R → Connection R) (r : R) (c : Connection R)
      → c.socket_enabled ≡ false
      → send_delayed_response ready true r c ≡ ready (ready_again r c)
  unfolding send_delayed_response send enable_socket
  send_delayed_response_lem ready r c e = simp e

  disabled : (c : Connection R) → IsSettled c → c.delayed_response ≡ true → c.socket_enabled ≡ false
  disabled c s e = ground arith

  Step-IsSettled : {c d : Connection R} → Step c d → IsSettled c → IsSettled d
  unfolding send_delayed_response
  Step-IsSettled (arrived c requests) s = deliver-IsSettled requests c s
  Step-IsSettled (replied c requests true r e) s =
      subst IsSettled (sym (send_delayed_response_lem (deliver requests) r c (disabled c s e)))
        (deliver-IsSettled requests (ready_again r c) (ready_again-IsSettled r c s e))
  Step-IsSettled (replied c requests false r e) s = s

  -- From a new connection, whatever requests arrive and whenever the delayed replies are sent after
  -- their calls have returned, the socket is enabled exactly while no reply is outstanding, and the
  -- replies that were sent are as many as are due, but for the outstanding one: none for a request
  -- whose document ends too early, two for one whose reply was sent by its handle before the call
  -- returned, and one for any other.
  pub Reach-IsSettled : {c : Connection R} → Reach new_connection c → IsSettled c
  unfolding replies_due
  Reach-IsSettled here = record { enabled = refl; counted = refl }
  Reach-IsSettled (next r st) = Step-IsSettled st (Reach-IsSettled r)

  -- Whether the first request's reply is delayed, and the replies it gets while it is handled.
  unfoldable pub postpones : List (Conduct R) → Bool
  postpones (takes_handle r ∷ later) = true
  postpones _ = false

  unfoldable pub replies_to : List (Conduct R) → List R
  replies_to (replies_at_once r ∷ later) = r ∷ []
  replies_to (takes_handle_and_sends early r ∷ later) = early ∷ r ∷ []
  replies_to _ = []

  handle_call-sent :
      (ready : Connection R → Connection R) (conduct : Conduct R) (later : List (Conduct R))
      (c : Connection R)
      → c.socket_enabled ≡ true
      → c.delayed_response ≡ false
      → ((handle_call ready conduct c).socket_enabled ≡ not (postpones (conduct ∷ later)))
        × ((handle_call ready conduct c).sent ≡ c.sent ++ replies_to (conduct ∷ later))
  unfolding handle_call send enable_socket set_response_delayed postpones replies_to
  handle_call-sent ready ends_too_early later c e d = (e, sym (append-nil c.sent))
  handle_call-sent ready (replies_at_once r) later c e d = (simp (e, d), simp (e, d))
  handle_call-sent ready (takes_handle r) later c e d = (simp e, simp (e, append-nil))
  handle_call-sent ready (takes_handle_and_sends early r) later c e d =
      (simp e, simp (e, append_assoc))

  deliver-sent :
      (requests : List (Conduct R)) (c : Connection R)
      → c.socket_enabled ≡ true
      → c.delayed_response ≡ false
      → ((deliver requests c).socket_enabled ≡ not (postpones requests))
        × ((deliver requests c).sent ≡ c.sent ++ replies_to requests)
  unfolding deliver postpones replies_to
  deliver-sent [] c e d = (e, sym (append-nil c.sent))
  deliver-sent (conduct ∷ later) c e d =
      rw (deliver_enabled conduct later c e) (handle_call-sent (deliver later) conduct later c e d)

  -- Whatever was reached with a reply outstanding, sending it writes that reply and takes up the
  -- request that has arrived meanwhile, if there is one: its replies follow, and the socket is
  -- disabled again exactly where the reply to it is delayed.
  pub send_delayed_response-sent :
      {c : Connection R} (requests : List (Conduct R)) (r : R)
      → Reach new_connection c
      → c.delayed_response ≡ true
      → ((send_delayed_response (deliver requests) true r c).socket_enabled
          ≡ not (postpones requests))
        × ((send_delayed_response (deliver requests) true r c).sent
            ≡ c.sent ++ r ∷ replies_to requests)
  send_delayed_response-sent {c} requests r reach e =
      let (enabled, sent) = deliver-sent requests (ready_again r c) refl refl in
      rw (send_delayed_response_lem (deliver requests) r c (disabled c (Reach-IsSettled reach) e))
        (enabled, sent ∙ append_assoc c.sent (r ∷ []) (replies_to requests))
