-- ===== src/AnyType/Totality.antt =====
-- Which documents the decoders of src/common/any_type.cpp accept.
use tiny_lobby_tests.Prelude.{
  Bool, true, false, ◌&&◌, String, some, [], ◌≡◌, ◌⊎◌, ◌↔◌, inl, inr, refl,
}
use tiny_lobby_tests.FlatMap.{FlatMap}
use tiny_lobby_tests.FlatMap
use tiny_lobby_tests.AnyType.{AnyElement, Items, to_fields}
use tiny_lobby_tests.AnyType.Decode.{
  Result, ok, err, c_str, decode_value, decode_present, decode_items, decode_fields,
}
use tiny_lobby_tests.Yyjson.{Json}
use tiny_lobby_tests.Yyjson

-- No value inside is of a kind that JSON does not have, and every key is a text.
mutual
  pub is_plain_json : Json → Bool
  is_plain_json (Json.arr xs) = are_plain_items xs
  is_plain_json (Json.obj fs) = are_plain_fields fs
  is_plain_json Json.other = false
  is_plain_json _ = true

  are_plain_items : Yyjson.Items → Bool
  are_plain_items Yyjson.Items.nil = true
  are_plain_items (Yyjson.Items.cons x xs) = is_plain_json x && are_plain_items xs

  are_plain_fields : Yyjson.Fields → Bool
  are_plain_fields Yyjson.Fields.end = true
  are_plain_fields (Yyjson.Fields.odd_field k x fs) = false
  are_plain_fields (Yyjson.Fields.field k x fs) = is_plain_json x && are_plain_fields fs

-- A decoder's result and the test agree.
Agrees : {A : Type 0} → Bool → Result A → Type 0
Agrees {A} b r = ((b ≡ true) × (a : A) × (r ≡ ok a)) ⊎ ((b ≡ false) × (e : String) × (r ≡ err e))

mutual
  unfolding decode_present decode_items decode_fields is_plain_json are_plain_items are_plain_fields
      Agrees

  value-Agrees : (x : Json) → Agrees (is_plain_json x) (decode_present x)
  value-Agrees Json.null = inl (refl, _, refl)
  value-Agrees (Json.bool b) = inl (refl, _, refl)
  value-Agrees (Json.num z) = inl (refl, _, refl)
  value-Agrees (Json.real n) = inl (refl, _, refl)
  value-Agrees (Json.str s) = inl (refl, _, refl)
  value-Agrees Json.other = inr (refl, _, refl)
  value-Agrees (Json.arr xs) = elim (items-Agrees xs) [
    | inl (t, ys, e) ↦ inl (t, AnyElement.arr ys, rw e refl)
    | inr (t, s, e) ↦ inr (t, s, rw e refl)
  ]
  value-Agrees (Json.obj fs) = elim (fields-Agrees fs []) [
    | inl (t, m, e) ↦ inl (t, AnyElement.obj (to_fields m), rw e refl)
    | inr (t, s, e) ↦ inr (t, s, rw e refl)
  ]

  items-Agrees : (xs : Yyjson.Items) → Agrees (are_plain_items xs) (decode_items xs)
  items-Agrees Yyjson.Items.nil = inl (refl, _, refl)
  items-Agrees (Yyjson.Items.cons x xs) = elim (value-Agrees x) [
    | inr (t, s, e) ↦ inr (rw t refl, s, rw e refl)
    | inl (t, y, e) ↦ elim (items-Agrees xs) [
      | inl (u, ys, d) ↦ inl (rw (t, u) refl, Items.cons y ys, rw (e, d) refl)
      | inr (u, s, d) ↦ inr (rw (t, u) refl, s, rw (e, d) refl)
    ]
  ]

  fields-Agrees :
      (fs : Yyjson.Fields) (m : FlatMap AnyElement)
      → Agrees (are_plain_fields fs) (decode_fields fs m)
  fields-Agrees Yyjson.Fields.end m = inl (refl, m, refl)
  fields-Agrees (Yyjson.Fields.odd_field k x fs) m = inr (refl, _, refl)
  fields-Agrees (Yyjson.Fields.field k x fs) m = elim (value-Agrees x) [
    | inr (t, s, e) ↦ inr (rw t refl, s, rw e refl)
    | inl (t, y, e) ↦ elim (fields-Agrees fs (FlatMap.insert (c_str k) y m)) [
      | inl (u, n, d) ↦ inl (rw (t, u) refl, n, rw (e, d) refl)
      | inr (u, s, d) ↦ inr (rw (t, u) refl, s, rw (e, d) refl)
    ]
  ]

-- Decoding a value gives an element exactly if no value inside it, at any depth, is of a kind that JSON
-- does not have and every key inside it is a text.
pub decode_value-ok :
    (x : Json) → ((e : AnyElement) × (decode_value (some x) ≡ ok e)) ↔ (is_plain_json x ≡ true)
unfolding decode_value Agrees
decode_value-ok x = elim (value-Agrees x) [
  | inl (t, e, d) ↦ (λ h. t, λ h. (e, d))
  | inr (t, s, d) ↦ (λ h. cc (h.1, d), λ h. cc (h, t))
]
