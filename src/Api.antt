-- ===== src/Api.antt =====
-- api/server.go: the token check, the routes, and the handlers over the manager and the store. A
-- request path is taken without percent escapes and already clean, as `net/http` routes it then. The
-- JSON decoder's result on the first 1024 bytes of the body is part of the request.
pub mod Auth
pub mod Effects
pub mod Requests
use play_apk_distributor.Prelude.{
  ℕ, Bool, true, false, not, ◌&&◌, ◌||◌, List, [], ◌∷◌, ◌++◌, map, Option, none, some,
  if◌then◌else◌,
}
use play_apk_distributor.Prelude.Int.{ℤ, pos}
use play_apk_distributor.Text.{Text, codes, text_eq, has_prefix, cut_prefix, contains}
use play_apk_distributor.Result.{Error, Result, ok, err}
use play_apk_distributor.Storage.{Answers, Codec}
use play_apk_distributor.Packages.{Manager, list, tracked, add, remove, validate_package_name}
use play_apk_distributor.Store.{Entry, Store, get_last_known}

pub record Request : Type 0 where
  pub method : Text
  pub path : Text
  pub authorization : Text
  pub content_type : Text
  -- the field `name` of the decoded body; `none` is an error of `Decode`
  pub decoded : Option Text

-- packageInfo; the time is printed by RFC 3339, and "" without one
pub record PackageInfo : Type 0 where
  pub name : Text
  pub version_code : ℤ
  pub version_name : Text
  pub updated_at : Option ℕ

pub data Body : Type 0 where
  alive : Body
  listing : List PackageInfo → Body
  info : PackageInfo → Body
  error_text : Body
  empty : Body

pub record Response : Type 0 where
  pub status : ℕ
  pub body : Body

-- writeError; its text is not modelled
abbrev pub write_error : ℕ → Response
write_error status = record { status = status; body = error_text }

-- packageInfo(name)
pub package_info : Store → Text → PackageInfo
package_info st name = elim (get_last_known st name) [
  | none ↦ record { name = name; version_code = pos 0; version_name = []; updated_at = none }
  | some e ↦ record {
    name = name;
    version_code = e.version_code;
    version_name = e.version_name;
    updated_at = some e.updated_at;
  }
]

-- the paths that the routes of `New` tell apart
pub data Route : Type 0 where
  health_route packages_route : Route
  package_route : Text → Route
  no_route : Route

abbrev pub health_path : Text
health_path = codes "/health"

-- {name} stands for one segment that is not empty
pub named_route : Option Text → Route
named_route none = no_route
named_route (some []) = no_route
named_route (some (c ∷ name)) =
    if contains (c ∷ name) (codes "/") then no_route else package_route (c ∷ name)

unfoldable pub route_of : Text → Route
unfolding named_route
route_of path =
    if text_eq path health_path
    then health_route
    else if text_eq path (codes "/packages")
    then packages_route
    else named_route (cut_prefix path (codes "/packages/"))

-- a route for GET serves HEAD as well
abbrev pub is_get : Request → Bool
is_get r = text_eq r.method (codes "GET") || text_eq r.method (codes "HEAD")

-- whether `authMiddleware` hands the request on
unfoldable pub authorized : Text → Request → Bool
authorized token r =
    text_eq r.path health_path
    || text_eq token []
    || text_eq r.authorization (codes "Bearer " ++ token)

pub list_packages : Store → Manager → Response
unfolding package_info list
list_packages st m = record { status = 200; body = listing (map (package_info st) (list m)) }

pub get_package : Text → Store → Manager → Response
unfolding package_info
get_package name st m = elim (validate_package_name name) [
  | err e ↦ write_error 400
  | ok _ ↦
      if not (tracked m name)
      then write_error 404
      else record { status = 200; body = info (package_info st name) }
]

module _ (codec : Codec (List Text)) where
  pub add_named : Text → Answers → Store → Manager → Response × Manager
  unfolding package_info
  add_named name io st m = elim (validate_package_name name) [
    | err e ↦ (write_error 400, m)
    | ok _ ↦
        let (r, m') = add codec name io m in
        elim r [
          | err e ↦ (write_error 409, m')
          | ok _ ↦ (record { status = 201; body = info (package_info st name) }, m')
        ]
  ]

  pub add_package : Request → Answers → Store → Manager → Response × Manager
  unfolding add_named
  add_package r io st m =
      if not (has_prefix r.content_type (codes "application/json"))
      then (write_error 415, m)
      else (elim r.decoded [
        | none ↦ (write_error 400, m)
        | some [] ↦ (write_error 400, m)
        | some (c ∷ name) ↦ add_named (c ∷ name) io st m
      ])

  pub remove_package : Text → Answers → Manager → Response × Manager
  remove_package name io m = elim (validate_package_name name) [
    | err e ↦ (write_error 400, m)
    | ok _ ↦
        let (r, m') = remove codec name io m in
        elim r [
          | err e ↦ (write_error 404, m')
          | ok _ ↦ (record { status = 204; body = empty }, m')
        ]
  ]

  -- the routes of `New`
  pub dispatch : Route → Request → Answers → Store → Manager → Response × Manager
  unfolding list_packages get_package add_package remove_package
  dispatch health_route r io st m =
      if is_get r then (record { status = 200; body = alive }, m) else (write_error 405, m)
  dispatch packages_route r io st m =
      let added = add_package r io st m in
      if is_get r
      then (list_packages st m, m)
      else if text_eq r.method (codes "POST")
      then added
      else (write_error 405, m)
  dispatch (package_route name) r io st m =
      if is_get r
      then (get_package name st m, m)
      else if text_eq r.method (codes "DELETE")
      then remove_package name io m
      else (write_error 405, m)
  dispatch no_route r io st m = (write_error 404, m)

  -- ServeHTTP: authMiddleware around the routes
  unfoldable pub serve : Text → Request → Answers → Store → Manager → Response × Manager
  unfolding authorized route_of dispatch
  serve token r io st m =
      let next = dispatch (route_of r.path) r io st m in
      if authorized token r then next else (write_error 401, m)
