-- ===== src/Game/Send/Batches.antt =====
-- Sending at once and sending in batches (`send` of src/game/game_thread.cpp).
use tiny_lobby_tests.Prelude.{
  ℕ, Bool, true, false, String, some, List, [], ◌∷◌, ◌++◌, ◌≡◌, refl, ap, sym, ◌∙◌, ◌==◌, eqb,
  if◌then◌else◌, eq_of_test,
}
use mathlib.Core.List.{append-nil, append_assoc}
use tiny_lobby_tests.FlatMap
use tiny_lobby_tests.FlatMap.{get_or}
use tiny_lobby_tests.Game.{World, Net, Content, Message, single, batch, Outgoing, text_frame}
use tiny_lobby_tests.Game.Monad.{M, for_each, skip, ◌>>=◌}
use tiny_lobby_tests.Game.Send.{send, send_net}

abbrev pub contents : Message → List Content
contents (single c) = c ∷ []
contents (batch cs) = cs

-- What a list of deferred calls delivers to a peer, in order.
abbrev pub delivered : String → List Outgoing → List Content
delivered p [] = []
delivered p (o ∷ os) = (if o.peer_id == p then contents o.message else []) ++ delivered p os

-- What waits for a peer.
abbrev pub waiting : String → Net → List Content
waiting p n = get_or [] (FlatMap.find p n.peers_send_data)

-- Texts sent one after the other.
unfoldable pub send_texts : List (String × Content) → M Unit
send_texts ss = for_each ss (λ s. send s.0 s.1 text_frame)

-- What such a list has for a peer.
abbrev pub meant : String → String × Content → List Content
meant p s = if s.0 == p then s.1 ∷ [] else []

delivered-snoc :
    (p : String) (os : List Outgoing) (o : Outgoing)
    → delivered p (os ++ o ∷ [])
      ≡ delivered p os ++ (if o.peer_id == p then contents o.message else [])
delivered-snoc p [] o = append-nil _
delivered-snoc p (x ∷ os) o =
    ap ((if x.peer_id == p then contents x.message else []) ++◌) (delivered-snoc p os o)
    ∙ sym (append_assoc (if x.peer_id == p then contents x.message else []) _ _)

-- What a text adds: nothing for a peer that is away.
abbrev pub adds : FlatMap.FlatMap ℕ → String → String × Content → List Content
adds away p s = if FlatMap.contains s.0 away then [] else meant p s

abbrev pub due : FlatMap.FlatMap ℕ → String → List (String × Content) → List Content
due away p [] = []
due away p (s ∷ ss) = adds away p s ++ due away p ss

at_once :
    (p : String) (s : String × Content) (w : World)
    → w.game.send_rate ≡ 0
    → delivered p (send s.0 s.1 text_frame w).1.net.outgoing
      ≡ delivered p w.net.outgoing ++ adds w.game.disconnected_peers p s
unfolding send send_net
at_once p s w e = go (FlatMap.contains s.0 w.game.disconnected_peers) refl
  where
    go :
        (b : Bool)
        → FlatMap.contains s.0 w.game.disconnected_peers ≡ b
        → delivered p (send s.0 s.1 text_frame w).1.net.outgoing
          ≡ delivered p w.net.outgoing ++ (if b then [] else meant p s)
    go true t = rw t (sym (append-nil _))
    go false t = rw (t, e) (delivered-snoc p w.net.outgoing _)

in_batches :
    (p : String) (s : String × Content) (w : World)
    → eqb w.game.send_rate 0 ≡ false
    → waiting p (send s.0 s.1 text_frame w).1.net
      ≡ waiting p w.net ++ adds w.game.disconnected_peers p s
unfolding send send_net
in_batches p s w e = go (FlatMap.contains s.0 w.game.disconnected_peers) refl
  where
    added :
        (b : Bool)
        → (s.0 == p) ≡ b
        → get_or [] (
            if b
            then some (get_or [] (FlatMap.find s.0 w.net.peers_send_data) ++ s.1 ∷ [])
            else FlatMap.find p w.net.peers_send_data)
          ≡ get_or [] (FlatMap.find p w.net.peers_send_data) ++ (if b then s.1 ∷ [] else [])
    added true q = rw (eq_of_test s.0 p q) refl
    added false q = sym (append-nil _)

    go :
        (b : Bool)
        → FlatMap.contains s.0 w.game.disconnected_peers ≡ b
        → waiting p (send s.0 s.1 text_frame w).1.net
          ≡ waiting p w.net ++ (if b then [] else meant p s)
    go true t = rw t (sym (append-nil _))
    go false t =
        rw
          (
            t,
            e,
            FlatMap.find-insert s.0 p
                (get_or [] (FlatMap.find s.0 w.net.peers_send_data) ++ s.1 ∷ [])
                w.net.peers_send_data,
          )
          (added (s.0 == p) refl)

all_at_once :
    (p : String) (ss : List (String × Content)) (w : World)
    → w.game.send_rate ≡ 0
    → delivered p (send_texts ss w).1.net.outgoing
      ≡ delivered p w.net.outgoing ++ due w.game.disconnected_peers p ss
unfolding send_texts for_each skip ◌>>=◌ send
all_at_once p [] w e = sym (append-nil _)
all_at_once p (s ∷ ss) w e =
    all_at_once p ss (send s.0 s.1 text_frame w).1 e
    ∙ ap (λ l. l ++ due w.game.disconnected_peers p ss) (at_once p s w e)
    ∙ append_assoc (delivered p w.net.outgoing) _ _

all_in_batches :
    (p : String) (ss : List (String × Content)) (w : World)
    → eqb w.game.send_rate 0 ≡ false
    → waiting p (send_texts ss w).1.net ≡ waiting p w.net ++ due w.game.disconnected_peers p ss
unfolding send_texts for_each skip ◌>>=◌ send
all_in_batches p [] w e = sym (append-nil _)
all_in_batches p (s ∷ ss) w e =
    all_in_batches p ss (send s.0 s.1 text_frame w).1 e
    ∙ ap (λ l. l ++ due w.game.disconnected_peers p ss) (in_batches p s w e)
    ∙ append_assoc (waiting p w.net) _ _

-- Batching changes when texts go out, not what they say: from two states with the same disconnected
-- peers, of which the one sends at once and the other in batches, and where what waits for a peer in the
-- second is what was delivered to it in the first, the same texts leave this so.
pub batches_match :
    (p : String) (ss : List (String × Content)) (w v : World)
    → w.game.send_rate ≡ 0
    → eqb v.game.send_rate 0 ≡ false
    → v.game.disconnected_peers ≡ w.game.disconnected_peers
    → waiting p v.net ≡ delivered p w.net.outgoing
    → waiting p (send_texts ss v).1.net ≡ delivered p (send_texts ss w).1.net.outgoing
batches_match p ss w v e f d h =
    all_in_batches p ss v f
    ∙ ap (λ l. l ++ due v.game.disconnected_peers p ss) h
    ∙ ap (λ away. delivered p w.net.outgoing ++ due away p ss) d
    ∙ sym (all_at_once p ss w e)
