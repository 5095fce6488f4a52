-- ===== src/Tests/Api.antt =====
-- The theorems on api/server.go at concrete inputs.
use play_apk_distributor.Prelude.{◌≡◌, ◌↔◌, refl, some}
use play_apk_distributor.Api.{authorized, Request, serve, route_of, package_route}
use play_apk_distributor.Packages.{remove, add, validate_package_name}
use play_apk_distributor.Text.{contains, cut_prefix, has_prefix, text_eq, Text, codes}
use play_apk_distributor.Storage.{save, all_ok}
use play_apk_distributor.NameSet.{has}
use play_apk_distributor.PackageName.{valid_package_name}
use play_apk_distributor.Api.Auth.{IsRefused, IsLookup, serve_unauthorized}
use play_apk_distributor.Api.Effects.{Effect, serve-Effect}
use play_apk_distributor.Tests.Samples.{names_codec, app, new_store, new_manager, one_manager}

abbrev pub token : Text
token = codes "secret"

abbrev pub post : Request
post = record {
  method = codes "POST";
  path = codes "/packages";
  authorization = codes "Bearer secret";
  content_type = codes "application/json; charset=utf-8";
  decoded = some app;
}

abbrev get_one : Request
get_one = record post { method = codes "GET"; path = codes "/packages/a.b" }

abbrev delete_one : Request
delete_one = record post { method = codes "DELETE"; path = codes "/packages/a.b" }

abbrev stranger : Request
stranger = record post { authorization = codes "Bearer guess" }

serve_unauthorized_example :
    (((serve names_codec token stranger all_ok new_store new_manager).0.status ≡ 401)
      ↔ IsRefused token stranger)
    × (IsRefused token stranger
        → (serve names_codec token stranger all_ok new_store new_manager).1 ≡ new_manager)
serve_unauthorized_example =
    serve_unauthorized names_codec token stranger all_ok new_store new_manager

stranger_example : (serve names_codec token stranger all_ok new_store new_manager).0.status ≡ 401
unfolding serve text_eq
stranger_example = refl

serve-Effect_example :
    Effect names_codec post new_manager (serve names_codec token post all_ok new_store new_manager)
serve-Effect_example = serve-Effect names_codec token post all_ok new_store new_manager

post_created : (serve names_codec token post all_ok new_store new_manager).0.status ≡ 201
unfolding serve text_eq has_prefix cut_prefix validate_package_name valid_package_name add has save
post_created = refl

delete_done : (serve names_codec token delete_one all_ok new_store one_manager).0.status ≡ 204
unfolding serve text_eq cut_prefix contains has_prefix validate_package_name valid_package_name
    remove has save
delete_done = refl

asks : IsLookup token app get_one
unfolding authorized text_eq route_of cut_prefix contains has_prefix
asks = (refl, refl, refl)

delete_route : route_of delete_one.path ≡ package_route app
unfolding route_of text_eq cut_prefix contains has_prefix
delete_route = refl
