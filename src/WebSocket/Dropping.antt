-- ===== src/WebSocket/Dropping.antt =====
-- Which ids lose their socket: `send` with a close, `send_all`, `clear_users` and `on_message` of
-- src/websocket/websocket_server.cpp.
use tiny_lobby_tests.Prelude.{
  ℕ, Bool, true, false, String, Option, none, some, List, [], ◌∷◌, ◌++◌, ◌≡◌, refl, sym, ap, ◌∙◌,
  arith, ◌==◌, if◌then◌else◌,
}
use tiny_lobby_tests.Prelude.Int.{pos, ltb_ℤ}
use tiny_lobby_tests.FlatMap.{find-erase}
use tiny_lobby_tests.FlatMap
use tiny_lobby_tests.FlatSet
use tiny_lobby_tests.Game.{text_frame, close_frame}
use tiny_lobby_tests.WebSocket.{
  PerSocketData, PeerConnectionData, WebSocketReceivedMessage, WebSocketServer, Env, set_data,
}
use tiny_lobby_tests.WebSocket.Handlers.{
  socket_of, send, send_each, clear_user, clear_users, forget_user, on_message, count_message, put,
  received,
}
use tiny_lobby_tests.WebSocket.Links.{Entries, Sockets, IsLinked, at_id, Unlinks-IsLinked}
use tiny_lobby_tests.WebSocket.Closing.{send_close-Unlinks, send-sockets, send_text-entries}
use tiny_lobby_tests.WebSocket.Opening.{holder, holder-at_id}

-- After `t` the ids of the list have no socket, and all others theirs.
abbrev pub Drops : List String → WebSocketServer → WebSocketServer → Type 0
Drops ids s t =
    ((j : String)
      → holder t.connection_data j
        ≡ (if FlatSet.contains j ids then none else holder s.connection_data j))
    × IsLinked t.connection_data t.sockets

drop_both :
    (same rest : Bool) (x y z : Option ℕ)
    → y ≡ (if same then none else x)
    → z ≡ (if rest then none else y)
    → z ≡ (if (if same then true else rest) then none else x)
drop_both true true x y z p q = q
drop_both true false x y z p q = q ∙ p
drop_both false true x y z p q = q
drop_both false false x y z p q = q ∙ p

only_one :
    (b : Bool) (x : Option ℕ)
    → (if (if b then true else false) then none else x) ≡ (if b then none else x)
only_one true x = refl
only_one false x = refl

pub Drops-cons :
    (id : String) (ids : List String) (s t u : WebSocketServer)
    → Drops (id ∷ []) s t
    → Drops ids t u
    → Drops (id ∷ ids) s u
unfolding FlatSet.contains
Drops-cons id ids s t u p q = (
  λ j.
      drop_both (id == j) (FlatSet.contains j ids) (holder s.connection_data j)
        (holder t.connection_data j) (holder u.connection_data j)
        (p.0 j ∙ only_one (id == j) (holder s.connection_data j)) (q.0 j),
  q.1,
)

Drops-then : (s t u : WebSocketServer) → Drops [] s t → Drops [] t u → Drops [] s u
unfolding FlatSet.contains
Drops-then s t u p q = (λ j. q.0 j ∙ p.0 j, q.1)

pub Drops-nil : (s : WebSocketServer) → IsLinked s.connection_data s.sockets → Drops [] s s
unfolding FlatSet.contains
Drops-nil s linked = (λ j. refl, linked)

socket_unless :
    (b : Bool) (o : Option PeerConnectionData)
    → socket_of (if b then none else o) ≡ (if b then none else socket_of o)
socket_unless true o = refl
socket_unless false o = refl

gone_twice :
    (b : Bool) (x y : Option ℕ)
    → y ≡ (if (if b then true else false) then none else x)
    → (if b then none else y) ≡ (if (if b then true else false) then none else x)
gone_twice true x y e = refl
gone_twice false x y e = e

erased_holder :
    (id j : String) (entries : Entries)
    → holder (FlatMap.erase id entries) j ≡ (if id == j then none else holder entries j)
erased_holder id j entries =
    ap (λ (o : Option PeerConnectionData). socket_of o) (find-erase id j entries)
    ∙ socket_unless (id == j) (FlatMap.find j entries)

found_of_erased :
    (b : Bool) (o : Option PeerConnectionData) (c : PeerConnectionData)
    → (if b then none else o) ≡ some c
    → o ≡ some c
found_of_erased true o c e = cc
found_of_erased false o c e = e

forget_user-Drops :
    (id : String) (s t : WebSocketServer) (o : Option PeerConnectionData)
    → Drops (id ∷ []) s t
    → Drops (id ∷ []) s (forget_user id o t)
unfolding forget_user FlatSet.contains
forget_user-Drops id s t none p = p
forget_user-Drops id s t (some c) p = (
  λ j.
      erased_holder id j t.connection_data
      ∙ gone_twice (id == j) (holder s.connection_data j) (holder t.connection_data j) (p.0 j),
  λ id' d ws e held.
      p.1 id' d ws
        (found_of_erased (id == id') (FlatMap.find id' t.connection_data) d
          (sym (find-erase id id' t.connection_data) ∙ e))
        held,
)

module _ (env : Env) where
  pub send_close-Drops :
      (id message : String) (s : WebSocketServer)
      → IsLinked s.connection_data s.sockets
      → Drops (id ∷ []) s (send env id message close_frame s)
  unfolding FlatSet.contains
  send_close-Drops id message s linked = (
    λ j.
        holder-at_id s.connection_data (send env id message close_frame s).connection_data id
          (send_close-Unlinks env id message s linked) j
        ∙ sym (only_one (id == j) (holder s.connection_data j)),
    rw (send-sockets env id message close_frame s) (
        Unlinks-IsLinked (at_id id) s.connection_data
          (send env id message close_frame s).connection_data s.sockets
          (send_close-Unlinks env id message s linked) linked),
  )

  pub send_each_close-Drops :
      (ids : List String) (message : String) (s : WebSocketServer)
      → IsLinked s.connection_data s.sockets
      → Drops ids s (send_each env message close_frame ids s)
  unfolding send_each
  send_each_close-Drops [] message s linked = Drops-nil s linked
  send_each_close-Drops (id ∷ ids) message s linked =
      let first = send_close-Drops id message s linked in
      Drops-cons id ids s (send env id message close_frame s)
        (send_each env message close_frame ids (send env id message close_frame s)) first
        (send_each_close-Drops ids message (send env id message close_frame s) first.1)

  pub send_text-Drops :
      (id message : String) (s : WebSocketServer)
      → IsLinked s.connection_data s.sockets
      → Drops [] s (send env id message text_frame s)
  unfolding FlatSet.contains
  send_text-Drops id message s linked = (
    λ j. ap (λ (e : Entries). holder e j) (send_text-entries env id message s),
    rw (send_text-entries env id message s, send-sockets env id message text_frame s) linked,
  )

  pub send_each_text-Drops :
      (ids : List String) (message : String) (s : WebSocketServer)
      → IsLinked s.connection_data s.sockets
      → Drops [] s (send_each env message text_frame ids s)
  unfolding send_each
  send_each_text-Drops [] message s linked = Drops-nil s linked
  send_each_text-Drops (id ∷ ids) message s linked =
      let first = send_text-Drops id message s linked in
      Drops-then s (send env id message text_frame s)
        (send_each env message text_frame ids (send env id message text_frame s)) first
        (send_each_text-Drops ids message (send env id message text_frame s) first.1)

  clear_user-Drops :
      (id : String) (s : WebSocketServer)
      → IsLinked s.connection_data s.sockets
      → Drops (id ∷ []) s (clear_user env id s)
  unfolding clear_user
  clear_user-Drops id s linked =
      let told : WebSocketServer = send env id "ERROR_SERVER_FAILED_TO_RECONNECT" close_frame s in
      forget_user-Drops id s told (FlatMap.find id told.connection_data)
        (send_close-Drops id "ERROR_SERVER_FAILED_TO_RECONNECT" s linked)

  pub clear_users-Drops :
      (ids : List String) (s : WebSocketServer)
      → IsLinked s.connection_data s.sockets
      → Drops ids s (clear_users env ids s)
  unfolding clear_users
  clear_users-Drops [] s linked = Drops-nil s linked
  clear_users-Drops (id ∷ ids) s linked =
      let first = clear_user-Drops id s linked in
      Drops-cons id ids s (clear_user env id s) (clear_users env ids (clear_user env id s)) first
        (clear_users-Drops ids (clear_user env id s) first.1)

Drops-if :
    (b : Bool) (s t u : WebSocketServer) (ids others : List String)
    → Drops ids s t
    → Drops others s u
    → Drops (if b then ids else others) s (if b then t else u)
Drops-if true s t u ids others p q = p
Drops-if false s t u ids others p q = q

Drops-either :
    (b : Bool) (s t u : WebSocketServer) (ids : List String)
    → Drops ids s t
    → Drops ids s u
    → Drops ids s (if b then t else u)
Drops-either true s t u ids p q = p
Drops-either false s t u ids p q = q

put-Drops :
    (env : Env) (m : WebSocketReceivedMessage) (s : WebSocketServer)
    → IsLinked s.connection_data s.sockets
    → Drops [] s (put env m s)
put-Drops env m s linked =
    Drops-either env.accepts s (record s { receive_queue = s.receive_queue ++ m ∷ [] }) s []
      (Drops-nil s linked) (Drops-nil s linked)

-- Counting a message leaves the ids and tokens of all sockets as they are.
counted-IsLinked :
    (now ws : ℕ) (entries : Entries) (sockets : Sockets)
    → IsLinked entries sockets
    → IsLinked entries (set_data ws (count_message now) sockets)
unfolding count_message
counted-IsLinked now ws entries sockets linked id c v e held =
    let old = linked id c v e held in (ground (arith, old.0), ground (arith, old.1))

-- The id that loses its socket by a message: that of a sender above the limit, or any sender's
-- where the queue is full.
abbrev pub losers : Env → ℕ → WebSocketServer → List String
losers env ws s =
    let d = count_message env.now (s.sockets ws) in
    if ltb_ℤ s.max_messages_per_second (pos d.message_count)
    then d.id ∷ []
    else if env.accepts
    then []
    else d.id ∷ []

pub on_message-Drops :
    (env : Env) (ws : ℕ) (message : String) (s : WebSocketServer)
    → IsLinked s.connection_data s.sockets
    → Drops (losers env ws s) s (on_message env ws message s)
unfolding on_message
on_message-Drops env ws message s linked =
    let d : PerSocketData = count_message env.now (s.sockets ws) in
    let counted : WebSocketServer = record s {
      sockets = set_data ws (count_message env.now) s.sockets;
    } in
    let linked' = counted-IsLinked env.now ws s.connection_data s.sockets linked in
    Drops-if (ltb_ℤ s.max_messages_per_second (pos d.message_count)) s _ _ (d.id ∷ []) _
      (send_close-Drops env d.id "ERROR_SERVER_RATE_LIMIT" counted linked')
      (Drops-if env.accepts s _ _ [] (d.id ∷ [])
        (put-Drops env (received d message) counted linked')
        (send_close-Drops env d.id "ERROR_SERVER_QUEUE_FULL" counted linked'))
