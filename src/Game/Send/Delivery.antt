-- ===== src/Game/Send/Delivery.antt =====
-- What a peer gets of the batches that `handle_send` of src/game/game_thread.cpp hands on.
use mathlib.Core.List.{append-nil, append_assoc}
use tiny_lobby_tests.Prelude.{
  Bool, true, false, String, Option, none, some, List, [], ◌∷◌, ◌++◌, ◌≡◌, refl, sym, ap, ◌∙◌, ◌==◌,
  is_some, is_nil, eq_of_test, if◌then◌else◌,
}
use tiny_lobby_tests.FlatMap.{FlatMap, IsDistinct, get_or}
use tiny_lobby_tests.FlatMap
use tiny_lobby_tests.Game.{Content, batch, text_frame, Outgoing}
use tiny_lobby_tests.Game.Send.{flush}
use tiny_lobby_tests.Game.Send.Batches.{delivered, contents}

pub delivered-append :
    (p : String) (os more : List Outgoing)
    → delivered p (os ++ more) ≡ delivered p os ++ delivered p more
delivered-append p [] more = refl
delivered-append p (o ∷ os) more =
    ap ((if o.peer_id == p then contents o.message else []) ++◌) (delivered-append p os more)
    ∙ sym (append_assoc (if o.peer_id == p then contents o.message else []) _ _)

nothing_due : (b : Bool) → ◌≡◌ {A = List Content} [] (if b then [] else [])
nothing_due true = refl
nothing_due false = refl

-- What a batch puts on the way to a peer.
delivered-batch :
    (p k : String) (cs : List Content)
    → delivered p (
        if is_nil cs
        then []
        else record { peer_id = k; message = batch cs; op_code = text_frame } ∷ [])
      ≡ (if k == p then cs else [])
delivered-batch p k [] = nothing_due (k == p)
delivered-batch p k (c ∷ cs) = append-nil _

pub flush-delivered :
    (p : String) (m : FlatMap (List Content))
    → IsDistinct m
    → delivered p (flush m) ≡ get_or [] (FlatMap.find p m)
unfolding flush FlatMap.find IsDistinct
flush-delivered p [] d = refl
flush-delivered p ((k, cs) ∷ m) d =
    delivered-append p _ (flush m)
    ∙ ap (λ l. l ++ delivered p (flush m)) (delivered-batch p k cs)
    ∙ ap ((if k == p then cs else []) ++◌) (flush-delivered p m d.1)
    ∙ go (k == p) refl (absent (FlatMap.find k m) d.0)
  where
    absent : {A : Type 0} (o : Option A) → is_some o ≡ false → o ≡ none
    absent none e = refl
    absent (some a) e = cc

    go :
        (b : Bool)
        → (k == p) ≡ b
        → FlatMap.find k m ≡ none
        → (if b then cs else []) ++ get_or [] (FlatMap.find p m)
          ≡ get_or [] (if b then some cs else FlatMap.find p m)
    go true e n =
        ap (λ i. cs ++ get_or [] (FlatMap.find i m)) (sym (eq_of_test k p e))
        ∙ ap (λ o. cs ++ get_or [] o) n
        ∙ append-nil cs
    go false e n = refl
