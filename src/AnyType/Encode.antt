-- ===== src/AnyType/Encode.antt =====
-- AnyElement::to_yyjson: the document that `to_string` hands to yyjson's writer.
use tiny_lobby_tests.AnyType.{AnyElement, Items, Fields}
use tiny_lobby_tests.AnyType.Decode.{c_str}
use tiny_lobby_tests.Yyjson.{Json}
use tiny_lobby_tests.Yyjson

unfoldable mutual
  pub to_yyjson : AnyElement → Json
  to_yyjson AnyElement.null = Json.null
  to_yyjson (AnyElement.bool b) = Json.bool b
  to_yyjson (AnyElement.int z) = Json.num z
  to_yyjson (AnyElement.real bits) = Json.real bits
  to_yyjson (AnyElement.str s) = Json.str (c_str s)
  to_yyjson (AnyElement.obj fs) = Json.obj (to_yyjson_fields fs)
  to_yyjson (AnyElement.arr xs) = Json.arr (to_yyjson_items xs)

  pub to_yyjson_items : Items → Yyjson.Items
  to_yyjson_items Items.nil = Yyjson.Items.nil
  to_yyjson_items (Items.cons x xs) = Yyjson.Items.cons (to_yyjson x) (to_yyjson_items xs)

  pub to_yyjson_fields : Fields → Yyjson.Fields
  to_yyjson_fields Fields.end = Yyjson.Fields.end
  to_yyjson_fields (Fields.field k x fs) =
      Yyjson.Fields.field (c_str k) (to_yyjson x) (to_yyjson_fields fs)
