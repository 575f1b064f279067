-- ===== src/Lua/Tables.antt =====
-- What survives the way of an element into a script and back: `push_lua_value` and then
-- `decode_luavalue` of src/lua/script_lua_functions.cpp.
use tiny_lobby_tests.Prelude.{
  ℕ, suc, Bool, true, false, String, none, some, List, [], ◌∷◌, ◌++◌, ◌≡◌, ◌≢◌, refl, sym, ap, ◌∙◌,
  arith, beq_ne,
}
use mathlib.Core.List.{append-nil, append_assoc}
use tiny_lobby_tests.Prelude.Int.{ℤ, pos}
use tiny_lobby_tests.FlatMap.{FlatMap}
use tiny_lobby_tests.FlatMap
use tiny_lobby_tests.AnyType.{
  AnyElement, Items, Fields, object, to_list, to_items, to_fields, entries,
}
use tiny_lobby_tests.AnyType.Decode.{c_str}
use tiny_lobby_tests.Lua.{LuaValue, Entries, at_number, at_text, Numbers, Outcome, done}
use tiny_lobby_tests.Lua.Value.{
  decode_luavalue, decode_luatable, push_lua_value, push_array, push_fields, Found, nothing_found,
  put_entry, put_text, is_null, of_number, has_key, is_nil, set_entry,
}

-- The entries, put into an empty map one after the other.
abbrev pub gather : Fields → FlatMap AnyElement → FlatMap AnyElement
gather Fields.end m = m
gather (Fields.field k x fs) m = gather fs (FlatMap.emplace k x m)

put_text_named :
    (key : String) (e : AnyElement) (f : Found)
    → is_null e ≡ false
    → f.is_dict ≡ true
    → put_text key (done e) f
      ≡ done (record f { result_dict = FlatMap.emplace key e f.result_dict })
unfolding put_text put_entry
put_text_named key e f there dict = ground arith

abbrev still_dict : Items → Bool → Bool
still_dict Items.nil b = b
still_dict (Items.cons x xs) b = false

still_false : (xs : Items) → still_dict xs false ≡ false
still_false Items.nil = refl
still_false (Items.cons x xs) = refl

abbrev with_items : Items → Found → Found
with_items xs f = record f {
  result_array = f.result_array ++ to_list xs;
  is_dict = still_dict xs f.is_dict;
}

abbrev with_fields : Fields → Found → Found
with_fields fs f = record f { result_dict = gather fs f.result_dict }

items_after :
    (xs : Items) (x : AnyElement) (f : Found)
    → ◌≡◌ {A = Outcome Found}
        (done
          (with_items xs (record f { result_array = f.result_array ++ x ∷ []; is_dict = false })))
        (done (with_items (Items.cons x xs) f))
items_after xs x f = rw (still_false xs, append_assoc f.result_array (x ∷ []) (to_list xs)) refl

to_items-to_list : (xs : Items) → to_items (to_list xs) ≡ xs
to_items-to_list Items.nil = refl
to_items-to_list (Items.cons x xs) = ap (λ (ys : Items). Items.cons x ys) (to_items-to_list xs)

to_fields-entries : (fs : Fields) → to_fields (entries fs) ≡ fs
to_fields-entries Fields.end = refl
to_fields-entries (Fields.field k x fs) =
    ap (λ (gs : Fields). Fields.field k x gs) (to_fields-entries fs)

module _ (numbers : Numbers) where
  -- An element that a script can hold as it is: integers that a double is equal to, doubles that are
  -- no integers, texts without a NUL, arrays that are not empty, and no nulls inside; the entries of a
  -- map, with keys that are not empty and not read as numbers.
  unfoldable mutual
    pub IsPlain : AnyElement → Type 0
    IsPlain AnyElement.null = Unit {0}
    IsPlain (AnyElement.bool b) = Unit {0}
    IsPlain (AnyElement.int z) = numbers.whole (numbers.of_int z) ≡ some z
    IsPlain (AnyElement.real bits) = numbers.whole bits ≡ none
    IsPlain (AnyElement.str s) = c_str s ≡ s
    IsPlain (AnyElement.arr Items.nil) = ⊥
    IsPlain (AnyElement.arr (Items.cons x xs)) = ArePlain (Items.cons x xs)
    IsPlain (AnyElement.obj fs) = (gather fs [] ≡ entries fs) × HavePlain fs

    pub ArePlain : Items → Type 0
    ArePlain Items.nil = Unit {0}
    ArePlain (Items.cons x xs) = (is_null x ≡ false) × IsPlain x × ArePlain xs

    pub HavePlain : Fields → Type 0
    HavePlain Fields.end = Unit {0}
    HavePlain (Fields.field k x fs) =
        (is_null x ≡ false)
        × (c_str k ≡ k)
        × (k ≢ "")
        × (numbers.read k ≡ none)
        × (has_key k fs ≡ false)
        × IsPlain x
        × HavePlain fs

  kept_value : (x : AnyElement) → is_null x ≡ false → is_nil (push_lua_value numbers x) ≡ false
  unfolding push_lua_value
  kept_value AnyElement.null e = cc
  kept_value (AnyElement.bool b) e = refl
  kept_value (AnyElement.int z) e = refl
  kept_value (AnyElement.real b) e = refl
  kept_value (AnyElement.str b) e = refl
  kept_value (AnyElement.arr b) e = refl
  kept_value (AnyElement.obj b) e = refl

  number_entry :
      (n : ℕ) (v : LuaValue) (e : AnyElement) (rest : Entries) (f : Found)
      → is_nil v ≡ false
      → decode_luavalue numbers v ≡ done e
      → decode_luatable numbers (set_entry (at_number n) v rest) f
        ≡ decode_luatable numbers rest
            (record f { result_array = f.result_array ++ e ∷ []; is_dict = false })
  unfolding decode_luatable
  number_entry n v e rest f kept decoded = rw (kept, decoded) refl

  text_entry :
      (k : String) (v : LuaValue) (e : AnyElement) (rest : Entries) (f : Found)
      → is_nil v ≡ false
      → is_null e ≡ false
      → c_str k ≡ k
      → k ≢ ""
      → numbers.read k ≡ none
      → f.is_dict ≡ true
      → decode_luavalue numbers v ≡ done e
      → decode_luatable numbers (set_entry (at_text k) v rest) f
        ≡ decode_luatable numbers rest
            (record f { result_dict = FlatMap.emplace k e f.result_dict })
  unfolding decode_luatable
  text_entry k v e rest f kept there short given word dict decoded =
      rw (kept, word, short, beq_ne k "" given, decoded, put_text_named k e f there dict) refl

  of_number_whole :
      (bits : ℕ) (z : ℤ) → numbers.whole bits ≡ some z → of_number numbers bits ≡ AnyElement.int z
  of_number_whole bits z h = rw (h, of_number) refl

  of_number_part :
      (bits : ℕ) → numbers.whole bits ≡ none → of_number numbers bits ≡ AnyElement.real bits
  of_number_part bits h = rw (h, of_number) refl

  mutual
    unfolding decode_luavalue push_lua_value IsPlain

    decode-push :
        (x : AnyElement) → IsPlain x → decode_luavalue numbers (push_lua_value numbers x) ≡ done x
    decode-push AnyElement.null h = refl
    decode-push (AnyElement.bool b) h = refl
    decode-push (AnyElement.int z) h =
        ap (λ (e : AnyElement). done e) (of_number_whole (numbers.of_int z) z h)
    decode-push (AnyElement.real bits) h = ap (λ (e : AnyElement). done e) (of_number_part bits h)
    decode-push (AnyElement.str s) h = rw h refl
    decode-push (AnyElement.arr Items.nil) h = absurd h
    decode-push (AnyElement.arr (Items.cons x xs)) h =
        rw (decode-push_array 1 (Items.cons x xs) nothing_found h)
          (ap (λ (ys : Items). done (AnyElement.arr ys)) (to_items-to_list (Items.cons x xs)))
    decode-push (AnyElement.obj fs) h = rw (decode-push_fields fs nothing_found h.1 refl) (
        ap (λ (m : FlatMap AnyElement). done (object m)) h.0
        ∙ ap (λ (gs : Fields). done (AnyElement.obj gs)) (to_fields-entries fs))

    decode-push_array :
        (i : ℕ) (xs : Items) (f : Found)
        → ArePlain xs
        → decode_luatable numbers (push_array numbers i xs) f ≡ done (with_items xs f)
    decode-push_array i Items.nil f h =
        ap (λ (l : List AnyElement). done (record f { result_array = l }))
          (sym (append-nil f.result_array))
    decode-push_array i (Items.cons x xs) f h =
        number_entry (numbers.of_int (pos i)) (push_lua_value numbers x) x
          (push_array numbers (suc i) xs) f (kept_value x h.0) (decode-push x h.1)
        ∙ decode-push_array (suc i) xs
            (record f { result_array = f.result_array ++ x ∷ []; is_dict = false }) h.2
        ∙ items_after xs x f

    decode-push_fields :
        (fs : Fields) (f : Found)
        → HavePlain fs
        → f.is_dict ≡ true
        → decode_luatable numbers (push_fields numbers fs) f ≡ done (with_fields fs f)
    decode-push_fields Fields.end f h dict = refl
    decode-push_fields (Fields.field k x fs) f h dict =
        rw (h.1, h.4)
          (text_entry k (push_lua_value numbers x) x (push_fields numbers fs) f (kept_value x h.0)
              h.0 h.1 h.2 h.3 dict (decode-push x h.5)
            ∙ decode-push_fields fs (record f { result_dict = FlatMap.emplace k x f.result_dict })
                h.6 dict)

-- An element that a script can hold as it is, and that a function of the server hands to the script,
-- is decoded to the same element when the script gives it back.
pub decode_luavalue-push_lua_value :
    (numbers : Numbers) (x : AnyElement)
    → IsPlain numbers x
    → decode_luavalue numbers (push_lua_value numbers x) ≡ done x
decode_luavalue-push_lua_value numbers x h = decode-push numbers x h

-- A dictionary with one entry whose key is read as a number, such as the id of a user, and whose
-- value comes back as it is, comes back from a script as an array of that value; and an empty array
-- comes back as an empty dictionary.
pub number_key_lost :
    (numbers : Numbers) (k : String) (x : AnyElement) (n : ℕ)
    → numbers.read (c_str k) ≡ some n
    → is_null x ≡ false
    → IsPlain numbers x
    → (decode_luavalue numbers
          (push_lua_value numbers (AnyElement.obj (Fields.field k x Fields.end)))
        ≡ done (AnyElement.arr (Items.cons x Items.nil)))
      × (decode_luavalue numbers (push_lua_value numbers (AnyElement.arr Items.nil))
          ≡ done (AnyElement.obj Fields.end))
unfolding decode_luavalue push_lua_value
number_key_lost numbers k x n read there plain =
    (rw (kept_value numbers x there, read, decode-push numbers x plain) refl, refl)
