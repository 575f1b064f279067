-- ===== src/Authentication/Login.antt =====
-- Who is upgraded after a login: `AuthenticationThread::run` of
-- src/authentication/authentication_thread.cpp, against what the login service says.
use Prim.Native.String
use tiny_lobby_tests.Prelude.{
  Bool, true, false, not, String, Option, none, some, [], ◌≡◌, ◌↔◌, refl, sym, ◌∙◌, arith,
  if◌then◌else◌,
}
use tiny_lobby_tests.FlatMap.{FlatMap}
use tiny_lobby_tests.FlatMap
use tiny_lobby_tests.AnyType.{AnyElement, Fields, entries}
use tiny_lobby_tests.AnyType.Decode.{Result, ok, err, decode_object}
use tiny_lobby_tests.Yyjson.{Json}
use tiny_lobby_tests.WebSocket.{PerSocketData}
use tiny_lobby_tests.Authentication.{
  Verdict, upgraded, refuse, with_login, read_login, read_token, read_data, read_success,
  read_result, read_document, Services, verify_jwt, has_dot, on_verified, authenticate,
}

-- The user as the login service names it.
abbrev pub named : PerSocketData → String → String → String → PerSocketData
named d platform name platform_id = record d {
  platform = platform;
  name = name;
  platform_id = platform_id;
  reconnection_token = String.◌++◌ platform (String.◌++◌ ":" platform_id);
}

abbrev pub is_object : AnyElement → Bool
is_object (AnyElement.obj fields) = true
is_object _ = false

-- What the service says of a user: who it is, or nothing, if its data or the token in them are no
-- object.
pub data Says (d : PerSocketData) (auth : FlatMap AnyElement) (user : PerSocketData) : Type 0 where
  names :
      (login token : Fields) (platform name platform_id : String)
      → FlatMap.find "data" auth ≡ some (AnyElement.obj login)
      → FlatMap.find "token" (entries login) ≡ some (AnyElement.obj token)
      → FlatMap.find "platform" (entries token) ≡ some (AnyElement.str platform)
      → FlatMap.find "name" (entries token) ≡ some (AnyElement.str name)
      → FlatMap.find "platform_id" (entries token) ≡ some (AnyElement.str platform_id)
      → user ≡ named d platform name platform_id
      → Says d auth user
  no_token :
      (login : Fields) (token : AnyElement)
      → FlatMap.find "data" auth ≡ some (AnyElement.obj login)
      → FlatMap.find "token" (entries login) ≡ some token
      → is_object token ≡ false
      → user ≡ d
      → Says d auth user
  no_data :
      (login : AnyElement)
      → FlatMap.find "data" auth ≡ some login
      → is_object login ≡ false
      → user ≡ d
      → Says d auth user

upgraded_inj : (a b : PerSocketData) → upgraded a ≡ upgraded b → a ≡ b
upgraded_inj a b e = cc

with_login_texts :
    (d user : PerSocketData) (platform name platform_id : Option AnyElement)
    → with_login d platform name platform_id ≡ upgraded user
    → (p : String) × (n : String) × (i : String) × (platform ≡ some (AnyElement.str p))
      × (name ≡ some (AnyElement.str n))
      × (platform_id ≡ some (AnyElement.str i))
      × (user ≡ named d p n i)
unfolding with_login
with_login_texts d user (some (AnyElement.str p)) (some (AnyElement.str n))
      (some (AnyElement.str i)) e =
    (p, n, i, refl, refl, refl, sym (upgraded_inj _ _ e))
with_login_texts d user p n i e = cc

not_refused :
    (b : Bool) (reason : String) (v : Verdict) (user : PerSocketData)
    → (if b then refuse reason else v) ≡ upgraded user
    → v ≡ upgraded user
not_refused true reason v user e = cc
not_refused false reason v user e = e

read_login_texts :
    (d user : PerSocketData) (token : FlatMap AnyElement)
    → read_login d token ≡ upgraded user
    → with_login d
        (FlatMap.find "platform" token)
        (FlatMap.find "name" token)
        (FlatMap.find "platform_id" token)
      ≡ upgraded user
unfolding read_login
read_login_texts d user token e =
    not_refused (not (FlatMap.contains "platform_id" token))
      "Cannot find platform_id in login result." _ user
      (not_refused (not (FlatMap.contains "platform" token)) "Cannot find platform in login result."
        _ user
        (not_refused (not (FlatMap.contains "name" token)) "Cannot find name in login result." _
          user e))

module _ (d user : PerSocketData) (auth : FlatMap AnyElement) where
  read_token-Says :
      (login : Fields) (token : Option AnyElement)
      → FlatMap.find "data" auth ≡ some (AnyElement.obj login)
      → FlatMap.find "token" (entries login) ≡ token
      → read_token d token ≡ upgraded user
      → Says d auth user
  unfolding read_token
  read_token-Says login none at here e = cc
  read_token-Says login (some (AnyElement.obj token)) at here e =
      let texts =
        with_login_texts d user (FlatMap.find "platform" (entries token))
          (FlatMap.find "name" (entries token)) (FlatMap.find "platform_id" (entries token))
          (read_login_texts d user (entries token) e) in
      names login token texts.0 texts.1 texts.2 at here texts.3 texts.4 texts.5 texts.6
  read_token-Says login (some token) at here e =
      no_token login token at here refl (sym (upgraded_inj d user e))

  read_data-Says :
      (o : Option AnyElement)
      → FlatMap.find "data" auth ≡ o
      → read_data d o ≡ upgraded user
      → Says d auth user
  unfolding read_data
  read_data-Says none at e = cc
  read_data-Says (some (AnyElement.obj login)) at e =
      read_token-Says login (FlatMap.find "token" (entries login)) at refl e
  read_data-Says (some login) at e = no_data login at refl (sym (upgraded_inj d user e))

  Says-login :
      (token : Fields) (platform name platform_id : String)
      → FlatMap.find "platform" (entries token) ≡ some (AnyElement.str platform)
      → FlatMap.find "name" (entries token) ≡ some (AnyElement.str name)
      → FlatMap.find "platform_id" (entries token) ≡ some (AnyElement.str platform_id)
      → read_login d (entries token) ≡ upgraded (named d platform name platform_id)
  unfolding read_login with_login
  Says-login token platform name platform_id p n i = rw (p, n, i) refl

  no_object_token :
      (token : AnyElement) → is_object token ≡ false → read_token d (some token) ≡ upgraded d
  unfolding read_token
  no_object_token (AnyElement.obj fields) e = cc
  no_object_token token e = refl

  no_object_data :
      (login : AnyElement) → is_object login ≡ false → read_data d (some login) ≡ upgraded d
  unfolding read_data
  no_object_data (AnyElement.obj fields) e = cc
  no_object_data login e = refl

  Says-read_data : Says d auth user → read_data d (FlatMap.find "data" auth) ≡ upgraded user
  unfolding read_data read_token
  Says-read_data (names login token platform name platform_id at here p n i e) =
      rw (at, here, e) (Says-login token platform name platform_id p n i)
  Says-read_data (no_token login token at here o e) = rw (at, here, e) (no_object_token token o)
  Says-read_data (no_data login at o e) = rw (at, e) (no_object_data login o)

  -- The answer of the service, when it is read: it says that the login succeeded.
  abbrev Succeeds : Type 0
  Succeeds = FlatMap.find "success" auth ≡ some (AnyElement.bool true)

  success_of :
      (o : Option AnyElement)
      → read_success d auth o ≡ upgraded user
      → (o ≡ some (AnyElement.bool true)) × (read_data d (FlatMap.find "data" auth) ≡ upgraded user)
  unfolding read_success
  success_of none e = cc
  success_of (some (AnyElement.bool true)) e = (refl, e)
  success_of (some (AnyElement.bool false)) e = cc
  success_of (some v) e = cc

-- The document of an answer says that the login succeeded, and who the user is.
abbrev pub Confirms : Option (Option Json) → PerSocketData → PerSocketData → Type 0
Confirms document d user =
    (root : Json) × (auth : FlatMap AnyElement) × (document ≡ some (some root))
    × (decode_object (some root) [] ≡ ok auth)
    × (FlatMap.find "success" auth ≡ some (AnyElement.bool true))
    × Says d auth user

module _ (d user : PerSocketData) where
  result-Confirms :
      (root : Json) (r : Result (FlatMap AnyElement))
      → decode_object (some root) [] ≡ r
      → read_result d r ≡ upgraded user
      → Confirms (some (some root)) d user
  unfolding read_result
  result-Confirms root (ok auth) decoded e =
      let found = success_of d user auth (FlatMap.find "success" auth) e in
      (
        root,
        auth,
        refl,
        decoded,
        found.0,
        read_data-Says d user auth (FlatMap.find "data" auth) refl found.1,
      )
  result-Confirms root (err reason) decoded e = cc

  document-Confirms :
      (document : Option (Option Json))
      → read_document d document ≡ upgraded user
      → Confirms document d user
  unfolding read_document
  document-Confirms none e = cc
  document-Confirms (some none) e = cc
  document-Confirms (some (some root)) e =
      result-Confirms root (decode_object (some root) []) refl e

  Confirms-document :
      (document : Option (Option Json))
      → Confirms document d user
      → read_document d document ≡ upgraded user
  unfolding read_document read_result read_success
  Confirms-document document (root, auth, here, decoded, success, says) =
      rw (here, decoded, success) (Says-read_data d user auth says)

no_error : (services : Services) (jwt : String) → (verify_jwt services jwt).1 ≡ ""
unfolding verify_jwt
no_error services jwt = ground arith

verified : (b : Bool) (x y : Verdict) → b ≡ true → (if not b then x else y) ≡ y
verified b x y e = ground arith

on_verified_lem :
    (services : Services) (d : PerSocketData) (answer : String × String)
    → answer.1 ≡ ""
    → on_verified services d answer ≡ read_document d (services.parse answer.0)
unfolding on_verified
on_verified_lem services d (result, error_msg) e = rw e refl

-- A connection whose token has a dot, and that is still open, is upgraded as a user exactly when the
-- answer of the login service is a document that decodes, says that the login succeeded, and names
-- that user; or has data, or a token in them, that is no object: then it is upgraded as it came.
pub authenticate_exact :
    (services : Services) (d user : PerSocketData)
    → has_dot d.reconnection_token ≡ true
    → (authenticate services false d ≡ upgraded user)
      ↔ Confirms (services.parse (verify_jwt services d.reconnection_token).0) d user
unfolding authenticate
authenticate_exact services d user dot =
    let read : authenticate services false d
        ≡ read_document d (services.parse (verify_jwt services d.reconnection_token).0) =
      verified (has_dot d.reconnection_token) _ _ dot
      ∙ on_verified_lem services d (verify_jwt services d.reconnection_token)
          (no_error services d.reconnection_token) in
    (λ e. document-Confirms d user _ (sym read ∙ e), λ c. read ∙ Confirms-document d user _ c)
