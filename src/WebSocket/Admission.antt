-- ===== src/WebSocket/Admission.antt =====
-- Under which id `on_open` of src/websocket/websocket_server.cpp enters a socket, if it does.
use tiny_lobby_tests.Prelude.{
  ℕ, ◌+◌, Bool, true, false, not, ◌&&◌, String, Option, none, some, ◌≡◌, ◌≢◌, refl, sym, ap, ◌∙◌,
  arith, ◌==◌, ltb, if◌then◌else◌,
}
use tiny_lobby_tests.FlatMap.{find-insert, map_some}
use tiny_lobby_tests.FlatMap
use tiny_lobby_tests.Game.{close_frame}
use tiny_lobby_tests.WebSocket.{
  PerSocketData, PeerConnectionData, WebSocketReceivedMessage, ReconnectionTokens, WebSocketServer,
  Env,
}
use tiny_lobby_tests.WebSocket.Handlers.{
  is_socket, end_socket, send, link, enter, reopen, open_with, on_open, put, opened, with_token,
  max_reconnection_time, drop_reconnection, reconnection_of,
}
use tiny_lobby_tests.WebSocket.Links.{Entries, IsLinked, at_id, Unlinks-IsLinked}
use tiny_lobby_tests.WebSocket.Closing.{
  send_close-Unlinks, send-sockets, end_socket-Unlinks, end_socket-sockets,
}
use tiny_lobby_tests.WebSocket.Opening.{
  holder, IsFresh, holder-at_id, holder-at_socket, link-holder, link-IsLinked,
}

-- A socket without a known token stands under its own id; another takes over the id of its token
-- within six minutes, if that user still has an entry, of the same game.
abbrev pub admitted_as :
    Env → PerSocketData → ReconnectionTokens → Option PeerConnectionData → Option String
admitted_as env d old none = none
admitted_as env d old (some c) =
    if ltb (old.timestamp + max_reconnection_time) env.now
    then none
    else if c.game_id == d.game_id
    then some old.peer_id
    else none

abbrev pub admitted : Env → PerSocketData → Option ReconnectionTokens → Entries → Option String
admitted env d none entries = some d.id
admitted env d (some old) entries = admitted_as env d old (FlatMap.find old.peer_id entries)

put-entries :
    (env : Env) (m : WebSocketReceivedMessage) (s : WebSocketServer)
    → (put env m s).connection_data ≡ s.connection_data
put-entries env m s = ground arith

put-sockets :
    (env : Env) (m : WebSocketReceivedMessage) (s : WebSocketServer)
    → (put env m s).sockets ≡ s.sockets
put-sockets env m s = ground arith

drop_taken :
    (ws : ℕ) (a b : Option ℕ) (same : Bool)
    → a ≡ (if same then some ws else b)
    → (if same then none else a) ≡ (if same then none else b)
drop_taken ws a b true e = refl
drop_taken ws a b false e = e

not_here :
    (b : Bool) (o : Option ℕ) (ws : ℕ) → o ≢ some ws → (if b && is_socket o ws then none else o) ≡ o
not_here false o ws fresh = refl
not_here true none ws fresh = refl
not_here true (some v) ws fresh = ground arith

with_token-id : (uuid : String) (d : PerSocketData) → (with_token uuid d).id ≡ d.id
unfolding with_token
with_token-id uuid d = ground arith

retake :
    (b : Bool) (x y z : Option ℕ)
    → y ≡ (if b then none else z)
    → (if b then x else y) ≡ (if b then x else z)
retake true x y z e = refl
retake false x y z e = e

second-IsFresh :
    (b : Bool) (o : Option ℕ) (ws : ℕ) → o ≢ some ws → (if b then none else o) ≢ some ws
second-IsFresh true o ws fresh e = cc
second-IsFresh false o ws fresh e = fresh e

pick_if :
    (R : WebSocketServer → Option String → Type 0) (b : Bool) (x y : WebSocketServer)
    (o p : Option String)
    → R x o
    → R y p
    → R (if b then x else y) (if b then o else p)
pick_if R true x y o p r q = r
pick_if R false x y o p r q = q

pick_either :
    (R : WebSocketServer → Type 0) (b : Bool) (x y : WebSocketServer)
    → R x
    → R y
    → R (if b then x else y)
pick_either R true x y r q = r
pick_either R false x y r q = q

pick_unless :
    (R : WebSocketServer → Option String → Type 0) (b : Bool) (x y : WebSocketServer)
    (o p : Option String)
    → R x o
    → R y p
    → R (if not b then x else y) (if b then p else o)
pick_unless R true x y o p r q = q
pick_unless R false x y o p r q = r

module _ (env : Env) (ws : ℕ) where
  -- Who stands under an id after the socket was entered under `id`.
  abbrev pub taken : String → Entries → String → Option ℕ
  taken id entries j = if id == j then (if env.accepts then some ws else none) else holder entries j

  enter-holder :
      (d : PerSocketData) (s : WebSocketServer)
      → IsLinked s.connection_data s.sockets
      → IsFresh s.connection_data ws
      → (j : String) → holder (enter env ws d s).connection_data j ≡ taken d.id s.connection_data j
  unfolding enter
  enter-holder d s linked fresh j =
      elim env.accepts
        as (λ b.
          holder
            (if b
              then put env (opened d) (link env ws d s)
              else send env d.id "ERROR_SERVER_QUEUE_FULL" close_frame
                  (link env ws d s)).connection_data
            j
          ≡ (if d.id == j then (if b then some ws else none) else holder s.connection_data j)) [
            | true ↦
                ap (λ (e : Entries). holder e j) (put-entries env (opened d) (link env ws d s))
                ∙ link-holder env ws d s j
            | false ↦
                holder-at_id (link env ws d s).connection_data _ d.id
                  (send_close-Unlinks env d.id "ERROR_SERVER_QUEUE_FULL" (link env ws d s)
                    (link-IsLinked env ws d s linked fresh))
                  j
                ∙ drop_taken ws _ _ (d.id == j) (link-holder env ws d s j)
          ]

  enter-IsLinked :
      (d : PerSocketData) (s : WebSocketServer)
      → IsLinked s.connection_data s.sockets
      → IsFresh s.connection_data ws
      → IsLinked (enter env ws d s).connection_data (enter env ws d s).sockets
  unfolding enter
  enter-IsLinked d s linked fresh =
      let linked' = link-IsLinked env ws d s linked fresh in
      let refused : WebSocketServer =
        send env d.id "ERROR_SERVER_QUEUE_FULL" close_frame (link env ws d s) in
      elim env.accepts
        as (λ b.
          IsLinked (if b then put env (opened d) (link env ws d s) else refused).connection_data
            (if b then put env (opened d) (link env ws d s) else refused).sockets) [
              | true ↦
                  rw
                    (
                      put-entries env (opened d) (link env ws d s),
                      put-sockets env (opened d) (link env ws d s),
                    )
                    linked'
              | false ↦
                  rw (send-sockets env d.id "ERROR_SERVER_QUEUE_FULL" close_frame (link env ws d s))
                    (Unlinks-IsLinked (at_id d.id) (link env ws d s).connection_data
                      refused.connection_data (link env ws d s).sockets
                      (send_close-Unlinks env d.id "ERROR_SERVER_QUEUE_FULL" (link env ws d s)
                        linked')
                      linked')
            ]

  -- A refused socket stands nowhere.
  refused-holder :
      (code : ℕ) (message : String) (s : WebSocketServer)
      → IsLinked s.connection_data s.sockets
      → IsFresh s.connection_data ws
      → (j : String)
      → holder (end_socket env ws code message s).connection_data j ≡ holder s.connection_data j
  refused-holder code message s linked fresh j =
      holder-at_socket s.connection_data _ env.closes_at_once ws
        (end_socket-Unlinks env ws code message s linked) j
      ∙ not_here env.closes_at_once (holder s.connection_data j) ws (fresh j)

  refused-IsLinked :
      (code : ℕ) (message : String) (s : WebSocketServer)
      → IsLinked s.connection_data s.sockets
      → IsLinked
          (end_socket env ws code message s).connection_data
          (end_socket env ws code message s).sockets
  refused-IsLinked code message s linked = rw (end_socket-sockets env ws code message s) (
      Unlinks-IsLinked (λ i c. env.closes_at_once && is_socket c.ws ws) s.connection_data
        (end_socket env ws code message s).connection_data s.sockets
        (end_socket-Unlinks env ws code message s linked) linked)

  abbrev pub changed : Option String → Entries → String → Option ℕ
  changed none entries j = holder entries j
  changed (some id) entries j = taken id entries j

  -- What opening the socket leads to, when it is entered under an id or refused.
  abbrev Opens : WebSocketServer → WebSocketServer → Option String → Type 0
  Opens s t o =
      ((j : String) → holder t.connection_data j ≡ changed o s.connection_data j)
      × IsLinked t.connection_data t.sockets

  refused-Opens :
      (code : ℕ) (message : String) (s : WebSocketServer)
      → IsLinked s.connection_data s.sockets
      → IsFresh s.connection_data ws
      → Opens s (end_socket env ws code message s) none
  refused-Opens code message s linked fresh =
      (refused-holder code message s linked fresh, refused-IsLinked code message s linked)

  enter-Opens :
      (d : PerSocketData) (s : WebSocketServer) (id : String)
      → d.id ≡ id
      → IsLinked s.connection_data s.sockets
      → IsFresh s.connection_data ws
      → Opens s (enter env ws d s) (some id)
  enter-Opens d s id same linked fresh = (
    λ j. enter-holder d s linked fresh j ∙ ap (λ (k : String). taken k s.connection_data j) same,
    enter-IsLinked d s linked fresh,
  )

  module _ (d e : PerSocketData) (s : WebSocketServer) (id message : String) (same : d.id ≡ id)
      (linked : IsLinked s.connection_data s.sockets) (fresh : IsFresh s.connection_data ws) where
    abbrev left : WebSocketServer
    left = send env id message close_frame s

    left-holder :
        (j : String)
        → holder left.connection_data j ≡ (if id == j then none else holder s.connection_data j)
    left-holder =
        holder-at_id s.connection_data left.connection_data id
          (send_close-Unlinks env id message s linked)

    left-IsLinked : IsLinked left.connection_data left.sockets
    left-IsLinked = rw (send-sockets env id message close_frame s) (
        Unlinks-IsLinked (at_id id) s.connection_data left.connection_data s.sockets
          (send_close-Unlinks env id message s linked) linked)

    left-IsFresh : IsFresh left.connection_data ws
    left-IsFresh j held =
        second-IsFresh (id == j) (holder s.connection_data j) ws (fresh j)
          (sym (left-holder j) ∙ held)

    takeover-Opens : Opens s (enter env ws d (drop_reconnection e left)) (some id)
    takeover-Opens = (
      λ j.
          enter-holder d (drop_reconnection e left) left-IsLinked left-IsFresh j
          ∙ ap
              (λ (k : String).
                if k == j
                then (if env.accepts then some ws else none)
                else holder left.connection_data j)
              same
          ∙ retake (id == j) (if env.accepts then some ws else none) _ _ (left-holder j),
      enter-IsLinked d (drop_reconnection e left) left-IsLinked left-IsFresh,
    )

  reopen-Opens :
      (d : PerSocketData) (old : ReconnectionTokens) (s : WebSocketServer)
      (o : Option PeerConnectionData)
      → IsLinked s.connection_data s.sockets
      → IsFresh s.connection_data ws
      → Opens s (reopen env ws d old o s) (admitted_as env d old o)
  unfolding reopen
  reopen-Opens d old s none linked fresh =
      pick_either (λ t. Opens s t none) (ltb (old.timestamp + max_reconnection_time) env.now) _ _
        (refused-Opens 1002 "ERROR_SERVER_RECONNECT_EXPIRED" (drop_reconnection d s) linked fresh)
        (refused-Opens 1002 "ERROR_SERVER_RECONNECT_PEER_ID_NOT_FOUND" (drop_reconnection d s)
          linked fresh)
  reopen-Opens d old s (some c) linked fresh =
      pick_if (Opens s) (ltb (old.timestamp + max_reconnection_time) env.now) _ _ none _
        (refused-Opens 1002 "ERROR_SERVER_RECONNECT_EXPIRED" (drop_reconnection d s) linked fresh)
        (pick_unless (Opens s) (c.game_id == d.game_id) _ _ none (some old.peer_id)
          (refused-Opens 1002 "ERROR_SERVER_WRONG_GAMEID" s linked fresh)
          (takeover-Opens (with_token env.uuid (record d { id = old.peer_id })) d s old.peer_id
            "ERROR_SERVER_RECONNECT_CLOSE" (with_token-id env.uuid (record d { id = old.peer_id }))
            linked fresh))

  open_with-Opens :
      (d : PerSocketData) (o : Option ReconnectionTokens) (s : WebSocketServer)
      → IsLinked s.connection_data s.sockets
      → IsFresh s.connection_data ws
      → Opens s (open_with env ws d o s) (admitted env d o s.connection_data)
  unfolding open_with
  open_with-Opens d none s linked fresh =
      enter-Opens (with_token env.uuid d) s d.id (with_token-id env.uuid d) linked fresh
  open_with-Opens d (some old) s linked fresh =
      reopen-Opens d old s (FlatMap.find old.peer_id s.connection_data) linked fresh

  pub on_open-Opens :
      (s : WebSocketServer)
      → IsLinked s.connection_data s.sockets
      → IsFresh s.connection_data ws
      → Opens s
          (on_open env ws s)
          (admitted env (s.sockets ws) (reconnection_of (s.sockets ws) s) s.connection_data)
  unfolding on_open
  on_open-Opens s linked fresh =
      open_with-Opens (s.sockets ws) (reconnection_of (s.sockets ws) s) s linked fresh
