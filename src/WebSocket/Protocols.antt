-- ===== src/WebSocket/Protocols.antt =====
-- What `on_upgrade` of src/websocket/websocket_server.cpp reads from a header that a client writes.
use Prim.Native.Char.{code}
use Prim.Native.String
use text.Mathlib.TextLemmas.{nil-append, cons-append}
use tiny_lobby_tests.Prelude.{
  Bool, true, false, not, ◌&&◌, String, List, [], ◌∷◌, ◌≡◌, refl, ap, ◌∙◌, arith, eqb,
  if◌then◌else◌,
}
use tiny_lobby_tests.Prelude.Int.{ltb_ℤ}
use tiny_lobby_tests.WebSocket.{WebSocketServer, default_socket_data}
use tiny_lobby_tests.WebSocket.Upgrade.{
  Upgrade, hand_on, on_upgrade, read_protocols, split, trim, trim_all, trim_start, trim_end, substr,
  is_space, is_empty,
}

abbrev pub has_no_comma : String → Bool
has_no_comma String.[] = true
has_no_comma (String.◌∷◌ c s) = not (eqb (code c) b',') && has_no_comma s

abbrev pub game_header : String → String
game_header game_id = String.◌++◌ "appsinacup" (String.◌++◌ "," (String.◌++◌ " " game_id))

abbrev pub token_header : String → String → String
token_header game_id token = String.◌++◌ "appsinacup" (
    String.◌++◌ ","
      (String.◌++◌ (String.◌++◌ " " game_id) (String.◌++◌ "," (String.◌++◌ " " token))))

-- A part that a client can write: without commas, and without spaces at its ends.
pub record IsPart (s : String) : Type 0 where
  pub plain : has_no_comma s ≡ true
  pub trimmed : trim s ≡ s

split_plain : (s : String) → has_no_comma s ≡ true → split s ≡ s ∷ []
unfolding split
split_plain String.[] h = refl
split_plain (String.◌∷◌ c s) h = ground (arith, split_plain s)

comma-append : (t : String) → split (String.◌++◌ "," t) ≡ "" ∷ split t
unfolding split
comma-append t = rw (cons-append _ "" t, nil-append t) refl

split-comma :
    (s t : String) → has_no_comma s ≡ true → split (String.◌++◌ s (String.◌++◌ "," t)) ≡ s ∷ split t
unfolding split
split-comma String.[] t h = rw (nil-append (String.◌++◌ "," t)) (comma-append t)
split-comma (String.◌∷◌ c s) t h =
    rw (cons-append c s (String.◌++◌ "," t)) (ground (arith, split-comma s t))

trim_space_cons :
    (b : Bool) (c : Prim.Native.Char.Char) (s : String)
    → is_space (code c) ≡ true
    → is_empty s ≡ b
    → trim_start (if b then "" else String.◌∷◌ c s) ≡ trim_start s
unfolding trim_start
trim_space_cons true c String.[] space e = refl
trim_space_cons true c (String.◌∷◌ d s) space e = cc
trim_space_cons false c s space e = rw space refl

trim-space : (s : String) → trim (String.◌++◌ " " s) ≡ trim s
unfolding trim trim_start trim_end
trim-space s =
    rw (cons-append _ "" s, nil-append s)
      (trim_space_cons (is_empty (trim_end s)) _ (trim_end s) refl refl)

no_comma-space : (s : String) → has_no_comma s ≡ true → has_no_comma (String.◌++◌ " " s) ≡ true
no_comma-space s h = rw (cons-append _ "" s, nil-append s) h

server_name : (l : List String) → trim "appsinacup" ∷ l ≡ "appsinacup" ∷ l
unfolding trim trim_start trim_end
server_name l = refl

unless_full : (b : Bool) (x y : Upgrade) → b ≡ false → (if b then x else y) ≡ y
unless_full b x y e = ground arith

two_parts :
    (game_id : String)
    → IsPart game_id
    → trim_all (split (game_header game_id)) ≡ "appsinacup" ∷ game_id ∷ []
unfolding trim_all
two_parts game_id game =
    ap trim_all (
      split-comma "appsinacup" (String.◌++◌ " " game_id) refl
      ∙ ap (λ (l : List String). "appsinacup" ∷ l)
          (split_plain (String.◌++◌ " " game_id) (no_comma-space game_id game.plain)))
    ∙ rw (trim-space game_id, game.trimmed) (server_name (game_id ∷ []))

three_parts :
    (game_id token : String)
    → IsPart game_id
    → IsPart token
    → trim_all (split (token_header game_id token)) ≡ "appsinacup" ∷ game_id ∷ token ∷ []
unfolding trim_all
three_parts game_id token game tok =
    ap trim_all (
      split-comma "appsinacup" _ refl
      ∙ ap (λ (l : List String). "appsinacup" ∷ l)
          (split-comma (String.◌++◌ " " game_id) _ (no_comma-space game_id game.plain)
            ∙ ap (λ (l : List String). String.◌++◌ " " game_id ∷ l)
                (split_plain (String.◌++◌ " " token) (no_comma-space token tok.plain))))
    ∙ rw (trim-space game_id, game.trimmed, trim-space token, tok.trimmed)
        (server_name (game_id ∷ token ∷ []))

upgrade_of_parts :
    (uuid uid protocol : String) (s : WebSocketServer) (parts : List String)
    → ltb_ℤ s.max_users s.connected_users ≡ false
    → trim_all (split protocol) ≡ parts
    → on_upgrade uuid uid true protocol s ≡ read_protocols uuid uid true parts
unfolding on_upgrade
upgrade_of_parts uuid uid protocol s parts room e =
    unless_full (ltb_ℤ s.max_users s.connected_users) _ _ room ∙ ap (read_protocols uuid uid true) e

module _ (uuid uid : String) (s : WebSocketServer) where
  -- A server that is not above its limit and whose queue has room hands a header "appsinacup, game,
  -- token" on with that game and that token, and a header "appsinacup, game" with the new uuid as the
  -- token, if game and token have no commas and no spaces at their ends.
  pub on_upgrade_reads :
      (game_id token : String)
      → IsPart game_id
      → IsPart token
      → ltb_ℤ s.max_users s.connected_users ≡ false
      → (on_upgrade uuid uid true (token_header game_id token) s
          ≡ hand_on (record default_socket_data {
            uid = uid;
            id = substr 8 uuid;
            game_id = game_id;
            reconnection_token = token;
          }))
        × (on_upgrade uuid uid true (game_header game_id) s
            ≡ hand_on (record default_socket_data {
              uid = uid;
              id = substr 8 uuid;
              game_id = game_id;
              reconnection_token = uuid;
            }))
  unfolding on_upgrade
  on_upgrade_reads game_id token game tok room = (
    upgrade_of_parts uuid uid (token_header game_id token) s _ room
        (three_parts game_id token game tok),
    upgrade_of_parts uuid uid (game_header game_id) s _ room (two_parts game_id game),
  )
