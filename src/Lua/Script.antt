-- ===== src/Lua/Script.antt =====
-- What a call of a script may do with the object `lobby`, in any order: the reads and writes of
-- src/lua/script_lua.cpp and the functions of src/lua/script_lua_functions.cpp but kick_peer.
use tiny_lobby_tests.Prelude.{
  beq_self, true, false, String, some, List, [], ◌∷◌, ◌≡◌, refl, ◌∙◌, ap, ◌==◌,
}
use tiny_lobby_tests.Lobby.{LobbyData}
use tiny_lobby_tests.Messages.{notification_lobby_host_changed}
use tiny_lobby_tests.FlatMap
use tiny_lobby_tests.AnyType.{AnyElement}
use tiny_lobby_tests.Game.{GameData, World, TimerData}
use tiny_lobby_tests.Game.Monad.{M, ◌>>=◌, pure, skip, get_lobby, modify_game, modify_lobby}
use tiny_lobby_tests.Game.Rules.{
  roster, SameMembership, Steady, Keeps, Keeps-pure, Keeps-if, Keeps-bind, Keeps-skip, Keeps-send,
  Keeps-send_to_all, Keeps-get_now, Keeps-get_lobby, Keeps-game, is_some-roster,
}
use tiny_lobby_tests.Game.Consistency.{IsConsistent, IsConsistent-same, Consistent-steady}
use tiny_lobby_tests.Lua.{LuaValue, Numbers, Outcome, done, fault}
use tiny_lobby_tests.Lua.Api.{
  Registry, check_string, checked, start_timer, stop_timer, notify, notify_all, broadcast_chat,
  set_leaderboard, notify_peer, notify_members, send_message, set_lobby_host,
}
use tiny_lobby_tests.Lua.Userdata.{
  LobbyUserdata, lobby_root, lobby_newindex, write_field, write_root, text_of,
}
use tiny_lobby_tests.AnyType.Decode.{c_str}
use tiny_lobby_tests.FlatSet
use tiny_lobby_tests.Game.Access.{get_lobby_found}
use tiny_lobby_tests.Lua.Reads.{lobby_index}
use tiny_lobby_tests.Lua.Looks.{reads_order, lobby_index-Keeps}
use tiny_lobby_tests.Lua.Writes.{
  InReach, InReach-steady, sets_host, lobby_newindex-Keeps, Keeps-after, Keeps-checked,
}

-- A use of the object `lobby` or of one of its functions but kick_peer, which moves a peer.
pub data Access : Type 0 where
  write : LobbyUserdata → LuaValue → LuaValue → Access
  read : LobbyUserdata → LuaValue → Access
  starts_timer : List LuaValue → Access
  stops_timer : List LuaValue → Access
  notifies : List LuaValue → Access
  notifies_all : List LuaValue → Access
  chats : List LuaValue → Access
  scores : List LuaValue → Access

ruleset calling =
    (Keeps-checked, Keeps-after, Keeps-if, Keeps-pure, Keeps-get_now, Keeps-send, Keeps-send_to_all)

module _ (numbers : Numbers) (registry : Registry) where
  abbrev forget : {A : Type 0} → Outcome A → Outcome (Unit {0})
  forget (done a) = done tt
  forget (fault e) = fault e

  -- A fault raises an error, which a script can catch.
  unfoldable pub perform : Access → M (Outcome (Unit {0}))
  unfolding lobby_newindex lobby_index start_timer stop_timer notify notify_all broadcast_chat
      set_leaderboard
  perform (write info key value) = lobby_newindex numbers info key value
  perform (read info key) = lobby_index numbers info key >>= λ r. pure (forget r)
  perform (starts_timer args) = start_timer numbers registry args
  perform (stops_timer args) = stop_timer numbers registry args
  perform (notifies args) = notify numbers registry args
  perform (notifies_all args) = notify_all numbers registry args
  perform (chats args) = broadcast_chat numbers registry args
  perform (scores args) = pure (forget (set_leaderboard numbers registry args))

  unfoldable pub perform_all : List Access → M (Unit {0})
  unfolding perform skip
  perform_all [] = skip
  perform_all (a ∷ more) = perform a >>= λ _. perform_all more

  -- The lobby of the call is there, the objects written and read are in reach, the host is not
  -- written, and the list of the peers in order is not read.
  abbrev Allowed : Access → GameData → Type 0
  Allowed (write info key value) g =
      InReach info g × (sets_host info.type (check_string numbers key) ≡ false)
  Allowed (read info key) g =
      InReach info g × (reads_order info.type (check_string numbers key) ≡ false)
  Allowed _ g = FlatMap.contains registry.lobby_id g.lobbies ≡ true

  unfoldable pub Within : List Access → GameData → Type 0
  Within [] g = IsConsistent g
  Within (a ∷ more) g = Allowed a g × Within more g

  Allowed-steady : (a : Access) (g h : GameData) → SameMembership g h → Allowed a g → Allowed a h
  Allowed-steady (write info key value) g h s c = ((InReach-steady info).along g h s c.0, c.1)
  Allowed-steady (read info key) g h s c = ((InReach-steady info).along g h s c.0, c.1)
  Allowed-steady (starts_timer args) g h s c = is_some-roster _ _ (s.rosters registry.lobby_id) c
  Allowed-steady (stops_timer args) g h s c = is_some-roster _ _ (s.rosters registry.lobby_id) c
  Allowed-steady (notifies args) g h s c = is_some-roster _ _ (s.rosters registry.lobby_id) c
  Allowed-steady (notifies_all args) g h s c = is_some-roster _ _ (s.rosters registry.lobby_id) c
  Allowed-steady (chats args) g h s c = is_some-roster _ _ (s.rosters registry.lobby_id) c
  Allowed-steady (scores args) g h s c = is_some-roster _ _ (s.rosters registry.lobby_id) c

  Within-steady : (more : List Access) → Steady (Within more)
  unfolding Within
  Within-steady [] = Consistent-steady
  Within-steady (a ∷ more) = record {
    along = λ g h s c. (Allowed-steady a g h s c.0, (Within-steady more).along g h s c.1);
  }

  module _ {P : GameData → Type 0} (steady : Steady P) where
    -- Only the timers change.
    Keeps-timer_data :
        (f : GameData → FlatMap.FlatMap TimerData)
        → Keeps P (modify_game (λ g. record g { timer_data = f g }))
    Keeps-timer_data f = Keeps-game _ (λ g. record {
      seats = λ p. refl;
      rosters = λ k. refl;
      control = refl;
      disbands = refl;
      callbacks = refl;
    })

    Keeps-start_timer : (args : List LuaValue) → Keeps P (start_timer numbers registry args)
    unfolding start_timer
    Keeps-start_timer [] = Keeps-pure _
    Keeps-start_timer (id ∷ []) = Keeps-pure _
    Keeps-start_timer (id ∷ seconds ∷ rest) =
        search (calling, steady, Keeps-timer_data, Keeps-bind) depth 14

    Keeps-stop_timer : (args : List LuaValue) → Keeps P (stop_timer numbers registry args)
    unfolding stop_timer
    Keeps-stop_timer [] = Keeps-pure _
    Keeps-stop_timer (id ∷ rest) = search (calling, steady, Keeps-timer_data, Keeps-bind) depth 14

    module _
        (there : (g : GameData) → P g → FlatMap.contains registry.lobby_id g.lobbies ≡ true) where
      lobby_found : Keeps P (get_lobby registry.lobby_id)
      lobby_found = Keeps-get_lobby registry.lobby_id there

      Keeps-notify : (args : List LuaValue) → Keeps P (notify numbers registry args)
      unfolding notify notify_peer
      Keeps-notify [] = Keeps-pure _
      Keeps-notify (peer ∷ []) = Keeps-pure _
      Keeps-notify (peer ∷ value ∷ rest) =
          search (calling, steady, lobby_found, Keeps-bind) depth 14

      Keeps-notify_all : (args : List LuaValue) → Keeps P (notify_all numbers registry args)
      unfolding notify_all notify_members
      Keeps-notify_all [] = Keeps-pure _
      Keeps-notify_all (value ∷ rest) = search (calling, steady, lobby_found, Keeps-bind) depth 14

      send_message-Keeps :
          (text : String) (metadata : FlatMap.FlatMap AnyElement)
          → Keeps P (send_message registry.lobby_id text metadata)
      unfolding send_message
      send_message-Keeps text metadata =
          Keeps-bind steady _ _ lobby_found λ lobby. Keeps-send_to_all steady _ _

      Keeps-broadcast_chat : (args : List LuaValue) → Keeps P (broadcast_chat numbers registry args)
      unfolding broadcast_chat
      Keeps-broadcast_chat [] = Keeps-pure _
      Keeps-broadcast_chat (message ∷ []) = search (calling, steady, send_message-Keeps) depth 10
      Keeps-broadcast_chat (message ∷ metadata ∷ rest) =
          search (calling, steady, send_message-Keeps) depth 12

    perform-Keeps : (a : Access) → ((g : GameData) → P g → Allowed a g) → Keeps P (perform a)
    unfolding perform
    perform-Keeps (write info key value) allowed = record {
      at = λ w c.
          (lobby_newindex-Keeps numbers info steady key value (λ g d. (allowed g d).0)
              (allowed w.game c).1).at
            w c;
    }
    perform-Keeps (read info key) allowed = record {
      at = λ w c.
          (Keeps-bind steady _ _
              (lobby_index-Keeps numbers info key (λ g d. (allowed g d).0) (allowed w.game c).1)
              λ r. Keeps-pure (forget r)).at
            w c;
    }
    perform-Keeps (starts_timer args) allowed = Keeps-start_timer args
    perform-Keeps (stops_timer args) allowed = Keeps-stop_timer args
    perform-Keeps (notifies args) allowed = Keeps-notify allowed args
    perform-Keeps (notifies_all args) allowed = Keeps-notify_all allowed args
    perform-Keeps (chats args) allowed = Keeps-broadcast_chat allowed args
    perform-Keeps (scores args) allowed = Keeps-pure _

    perform_all-Keeps :
        (more : List Access) → ((g : GameData) → P g → Within more g) → Keeps P (perform_all more)
    unfolding perform_all Within
    perform_all-Keeps [] within = Keeps-skip
    perform_all-Keeps (a ∷ more) within =
        Keeps-bind steady _ _ (perform-Keeps a (λ g c. (within g c).0))
          λ _. perform_all-Keeps more (λ g c. (within g c).1)

-- Where the state of a game is consistent, whatever reads and writes of the lobby's and the peers'
-- objects a script makes, whatever timers it starts and stops and whatever notifications, chats and
-- scores it sends, in any order and with any values, as long as the lobby of the call, the lobbies and
-- the peers of the objects are there and it neither kicks a peer, nor writes the host, nor reads
-- `peers_ordered`, the membership stays what it was, and consistent.
pub scripts_keep_membership :
    (numbers : Numbers) (registry : Registry) (accesses : List Access) (w : World)
    → IsConsistent w.game
    → Within numbers registry accesses w.game
    → SameMembership w.game (perform_all numbers registry accesses w).1.game
      × IsConsistent (perform_all numbers registry accesses w).1.game
scripts_keep_membership numbers registry accesses w c within =
    let same =
      (perform_all-Keeps numbers registry (Within-steady numbers registry accesses) accesses
          (λ g d. d)).at
        w within in
    (same, IsConsistent-same same c)

-- The state after a write of the host, as `set_lobby_host` makes it.
set_lobby_host-roster :
    (k t : String) (lobby : LobbyData) (w : World)
    → FlatMap.find k w.game.lobbies ≡ some lobby
    → (lobby.host == t) ≡ false
    → roster (FlatMap.find k (set_lobby_host k lobby t w).1.game.lobbies)
      ≡ some (lobby.id, t, lobby.peer_ids)
unfolding set_lobby_host modify_lobby ◌>>=◌
set_lobby_host-roster k t lobby w found other =
    let put = (modify_lobby k (λ l. record l { host = t }) w).1 in
    let any : Steady (λ g. Unit) = record { along = λ g h s c. tt } in
    let told =
      (Keeps-send_to_all any lobby.peer_ids (notification_lobby_host_changed t)).at put tt in
    rw other (
      told.rosters k
      ∙ ap roster (FlatMap.find-adjust k k (λ l. record l { host = t }) w.game.lobbies)
      ∙ rw (beq_self k, found) refl)

-- The object `lobby` of a call.
abbrev pub lobby_object : String → String → String → LobbyUserdata
lobby_object game_id lobby_id peer_id = record {
  type = lobby_root;
  game_id = game_id;
  lobby_id = lobby_id;
  calling_peer_id = peer_id;
  peer_id = "";
}

module _ (numbers : Numbers) (g k p s : String) (lobby : LobbyData) (w : World) where
  abbrev host_written : World
  host_written =
      (lobby_newindex numbers (lobby_object g k p) (LuaValue.text "host") (LuaValue.text s) w).1

  lobby_newindex-host :
      FlatMap.find k w.game.lobbies ≡ some lobby
      → host_written ≡ (set_lobby_host k lobby (c_str s) w).1
  unfolding lobby_newindex write_field write_root text_of ◌>>=◌ pure c_str skip
  lobby_newindex-host found =
      ap
        (λ (r : LobbyData × World).
          (checked (check_string numbers (LuaValue.text "host"))
            (λ key. write_field numbers (lobby_object g k p) lobby_root r.0 key (LuaValue.text s))
            r.1).1)
        (get_lobby_found k lobby w found)

  -- A script's write of the host takes any text: where it is not the name of a member, and not that
  -- of the host there, no consistent state is left.
  pub host_not_member :
      FlatMap.find k w.game.lobbies ≡ some lobby
      → (lobby.host == c_str s) ≡ false
      → FlatSet.contains (c_str s) lobby.peer_ids ≡ false
      → ¬ IsConsistent
          (lobby_newindex numbers
            (lobby_object g k p)
            (LuaValue.text "host")
            (LuaValue.text s)
            w).1.game
  host_not_member found other absent c =
      let r = set_lobby_host-roster k (c_str s) lobby w found other in
      let same =
        ap (λ (v : World). roster (FlatMap.find k v.game.lobbies)) (lobby_newindex-host found) in
      let member = c.hosts k lobby.id (c_str s) lobby.peer_ids (same ∙ r) in cc (member, absent)
