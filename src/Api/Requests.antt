-- ===== src/Api/Requests.antt =====
-- An HTTP request as requests of the manager.
use play_apk_distributor.Prelude.{
  ◌≡◌, refl, List, [], ◌∷◌, Option, none, some, arith, Bool-cases, inl, inr,
}
use play_apk_distributor.Text.{Text, codes, text_eq, has_prefix}
use play_apk_distributor.Result.{Result-cases}
use play_apk_distributor.Storage.{Answers, Codec}
use play_apk_distributor.Packages.{Manager, add, remove, validate_package_name}
use play_apk_distributor.Packages.Invariant.{Request as Edit, adding, removing, run}
use play_apk_distributor.Store.{Store}
use play_apk_distributor.Api.{
  Request, Response, Route, health_route, packages_route, package_route, no_route, is_get,
  authorized, route_of, write_error, add_named, add_package, remove_package, dispatch, serve,
}

module _ (codec : Codec (List Text)) where
  -- the manager is what some requests to add and remove make of it
  abbrev pub IsRun : Manager → Manager → Type 0
  IsRun m m' = (rs : List Edit) × (m' ≡ run codec rs m)

  stays : (m m' : Manager) → m' ≡ m → IsRun m m'
  unfolding run
  stays m m' e = ([], e)

  add_named-IsRun :
      (name : Text) (io : Answers) (st : Store) (m : Manager)
      → IsRun m (add_named codec name io st m).1
  unfolding add_named run
  add_named-IsRun name io st m = elim (Result-cases (validate_package_name name)) [
    | inr (e, bad) ↦ stays m _ (ground arith)
    | inl (u, good) ↦ elim (Result-cases (add codec name io m).0) [
      | inl (v, h) ↦ (adding name io ∷ [], ground arith)
      | inr (e, h) ↦ (adding name io ∷ [], ground arith)
    ]
  ]

  remove-IsRun :
      (name : Text) (io : Answers) (m : Manager) → IsRun m (remove_package codec name io m).1
  unfolding remove_package run
  remove-IsRun name io m = elim (Result-cases (validate_package_name name)) [
    | inr (e, bad) ↦ stays m _ (ground arith)
    | inl (u, good) ↦ elim (Result-cases (remove codec name io m).0) [
      | inl (v, h) ↦ (removing name io ∷ [], ground arith)
      | inr (e, h) ↦ (removing name io ∷ [], ground arith)
    ]
  ]

  add-IsRun :
      (r : Request) (io : Answers) (st : Store) (m : Manager)
      → IsRun m (add_package codec r io st m).1
  unfolding add_package
  add-IsRun r io st m = elim (Bool-cases (has_prefix r.content_type (codes "application/json"))) [
    | inr f ↦ stays m _ (ground arith)
    | inl t ↦ rw t (go r.decoded)
  ]
    where
      go :
          (o : Option Text)
          → IsRun m
              (elim o as (λ x. Response × Manager) [
                | none ↦ (write_error 400, m)
                | some [] ↦ (write_error 400, m)
                | some (c ∷ name) ↦ add_named codec (c ∷ name) io st m
              ]).1
      go none = stays m m refl
      go (some []) = stays m m refl
      go (some (c ∷ name)) = add_named-IsRun (c ∷ name) io st m

  dispatch-IsRun :
      (route : Route) (r : Request) (io : Answers) (st : Store) (m : Manager)
      → IsRun m (dispatch codec route r io st m).1
  unfolding dispatch
  dispatch-IsRun health_route r io st m = stays m _ (ground arith)
  dispatch-IsRun packages_route r io st m = elim (Bool-cases (is_get r)) [
    | inl t ↦ stays m _ (ground arith)
    | inr f ↦ elim (Bool-cases (text_eq r.method (codes "POST"))) [
      | inl post ↦ rw f (rw post (add-IsRun r io st m))
      | inr other ↦ stays m _ (ground arith)
    ]
  ]
  dispatch-IsRun (package_route name) r io st m = elim (Bool-cases (is_get r)) [
    | inl t ↦ stays m _ (ground arith)
    | inr f ↦ elim (Bool-cases (text_eq r.method (codes "DELETE"))) [
      | inl delete ↦ rw f (rw delete (remove-IsRun name io m))
      | inr other ↦ stays m _ (ground arith)
    ]
  ]
  dispatch-IsRun no_route r io st m = stays m m refl

  -- whatever is served, the manager is run by requests to add and remove
  pub serve-IsRun :
      (token : Text) (r : Request) (io : Answers) (st : Store) (m : Manager)
      → IsRun m (serve codec token r io st m).1
  unfolding serve
  serve-IsRun token r io st m = elim (Bool-cases (authorized token r)) [
    | inl t ↦ rw t (dispatch-IsRun (route_of r.path) r io st m)
    | inr f ↦ rw f (stays m m refl)
  ]
