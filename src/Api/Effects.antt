-- ===== src/Api/Effects.antt =====
-- What the requests do to the tracked packages, by the status of the answer.
use play_apk_distributor.Prelude.{
  ◌≡◌, ◌≢◌, refl, true, List, [], ◌∷◌, Option, none, some, arith, Bool-cases, inl, inr,
}
use play_apk_distributor.Text.{Text, codes, text_eq, has_prefix}
use play_apk_distributor.Result.{Error, Result, ok, err, Result-cases}
use play_apk_distributor.Storage.{Answers, Codec}
use play_apk_distributor.PackageName.{valid_package_name}
use play_apk_distributor.Packages.{Manager, tracked, add, remove, validate_package_name}
use play_apk_distributor.Packages.Edits.{Unchanged, unchanged}
use play_apk_distributor.Packages.Adding.{Added, add-done, add_failed}
use play_apk_distributor.Packages.Removing.{Removed, remove-done, remove_failed}
use play_apk_distributor.Store.{Store}
use play_apk_distributor.Api.{
  Request, Response, Route, health_route, packages_route, package_route, no_route, is_get,
  authorized, route_of, write_error, get_package, list_packages, add_named, add_package,
  remove_package, dispatch, serve, package_info, info, empty,
}

valid_of :
    (name : Text) (u : Unit {0})
    → validate_package_name name ≡ ok u
    → valid_package_name name ≡ true
unfolding validate_package_name
valid_of name u h = elim (Bool-cases (valid_package_name name)) [
  | inl t ↦ t
  | inr f ↦ absurd (ground arith)
]

module _ (codec : Codec (List Text)) where
  -- by its status, an answer has added the name of the body, removed the name of the path, or changed nothing
  pub data Effect (r : Request) (m : Manager) (p : Response × Manager) : Type 0 where
    created :
        (name : Text)
        → p.0.status ≡ 201
        → r.decoded ≡ some name
        → Added codec name m p.1
        → Effect r m p
    deleted :
        (name : Text)
        → p.0.status ≡ 204
        → valid_package_name name ≡ true
        → route_of r.path ≡ package_route name
        → Removed codec name m p.1
        → Effect r m p
    kept : p.0.status ≢ 201 → p.0.status ≢ 204 → Unchanged m p.1 → Effect r m p

  same_manager :
      (r : Request) (m : Manager) (a : Response)
      → a.status ≢ 201
      → a.status ≢ 204
      → Effect r m (a, m)
  same_manager r m a h k = kept h k (unchanged m)

  get_status :
      (name : Text) (st : Store) (m : Manager)
      → ((get_package name st m).status ≢ 201) × ((get_package name st m).status ≢ 204)
  unfolding get_package
  get_status name st m = elim (Result-cases (validate_package_name name)) [
    | inr (e, bad) ↦ (λ h. ground arith, λ h. ground arith)
    | inl (u, good) ↦ elim (Bool-cases (tracked m name)) [
      | inl t ↦ (λ h. ground arith, λ h. ground arith)
      | inr f ↦ (λ h. ground arith, λ h. ground arith)
    ]
  ]

  -- the answers to `Add` and `Remove`, by the error
  add_answer : Store → Text → Result (Unit {0}) → Response
  add_answer st name (ok u) = record { status = 201; body = info (package_info st name) }
  add_answer st name (err e) = write_error 409

  remove_answer : Result (Unit {0}) → Response
  remove_answer (ok u) = record { status = 204; body = empty }
  remove_answer (err e) = write_error 404

  add_named_invalid :
      (name : Text) (io : Answers) (st : Store) (m : Manager) (e : Error)
      → validate_package_name name ≡ err e
      → add_named codec name io st m ≡ (write_error 400, m)
  unfolding add_named
  add_named_invalid name io st m e h = ground arith

  add_named_valid :
      (name : Text) (io : Answers) (st : Store) (m : Manager) (u : Unit {0}) (r : Result (Unit {0}))
      → validate_package_name name ≡ ok u
      → (add codec name io m).0 ≡ r
      → add_named codec name io st m ≡ (add_answer st name r, (add codec name io m).1)
  unfolding add_named add_answer
  add_named_valid name io st m u (ok v) h k = ground arith
  add_named_valid name io st m u (err e) h k = ground arith

  remove_invalid :
      (name : Text) (io : Answers) (m : Manager) (e : Error)
      → validate_package_name name ≡ err e
      → remove_package codec name io m ≡ (write_error 400, m)
  unfolding remove_package
  remove_invalid name io m e h = ground arith

  remove_valid :
      (name : Text) (io : Answers) (m : Manager) (u : Unit {0}) (r : Result (Unit {0}))
      → validate_package_name name ≡ ok u
      → (remove codec name io m).0 ≡ r
      → remove_package codec name io m ≡ (remove_answer r, (remove codec name io m).1)
  unfolding remove_package remove_answer
  remove_valid name io m u (ok v) h k = ground arith
  remove_valid name io m u (err e) h k = ground arith

  add_named-Effect :
      (name : Text) (r : Request) (io : Answers) (st : Store) (m : Manager)
      → r.decoded ≡ some name
      → Effect r m (add_named codec name io st m)
  unfolding add_answer
  add_named-Effect name r io st m e = elim (Result-cases (validate_package_name name)) [
    | inr (x, bad) ↦
        rw (add_named_invalid name io st m x bad)
          (same_manager r m (write_error 400) (λ h. ground arith) (λ h. ground arith))
    | inl (u, good) ↦ elim (Result-cases (add codec name io m).0) [
      | inl (v, fine) ↦
          rw (add_named_valid name io st m u (ok v) good fine)
            (created name refl e (add-done codec name io m fine))
      | inr (x, bad) ↦
          rw (add_named_valid name io st m u (err x) good bad)
            (kept (λ h. ground arith) (λ h. ground arith) (add_failed codec name io m x bad))
    ]
  ]

  add-Effect :
      (r : Request) (io : Answers) (st : Store) (m : Manager)
      → Effect r m (add_package codec r io st m)
  unfolding add_package
  add-Effect r io st m = elim (Bool-cases (has_prefix r.content_type (codes "application/json"))) [
    | inr f ↦ rw f (same_manager r m (write_error 415) (λ h. ground arith) (λ h. ground arith))
    | inl t ↦ rw t (go r.decoded refl)
  ]
    where
      go :
          (o : Option Text)
          → r.decoded ≡ o
          → Effect r m (elim o as (λ x. Response × Manager) [
            | none ↦ (write_error 400, m)
            | some [] ↦ (write_error 400, m)
            | some (c ∷ name) ↦ add_named codec (c ∷ name) io st m
          ])
      go none e = same_manager r m (write_error 400) (λ h. ground arith) (λ h. ground arith)
      go (some []) e = same_manager r m (write_error 400) (λ h. ground arith) (λ h. ground arith)
      go (some (c ∷ name)) e = add_named-Effect (c ∷ name) r io st m e

  remove-Effect :
      (name : Text) (r : Request) (io : Answers) (m : Manager)
      → route_of r.path ≡ package_route name
      → Effect r m (remove_package codec name io m)
  unfolding remove_answer
  remove-Effect name r io m e = elim (Result-cases (validate_package_name name)) [
    | inr (x, bad) ↦
        rw (remove_invalid name io m x bad)
          (same_manager r m (write_error 400) (λ h. ground arith) (λ h. ground arith))
    | inl (u, good) ↦ elim (Result-cases (remove codec name io m).0) [
      | inl (v, fine) ↦ rw (remove_valid name io m u (ok v) good fine) (
          deleted name refl (ground (arith, valid_of name u good)) e
            (remove-done codec name io m fine))
      | inr (x, bad) ↦
          rw (remove_valid name io m u (err x) good bad)
            (kept (λ h. ground arith) (λ h. ground arith) (remove_failed codec name io m x bad))
    ]
  ]

  dispatch-Effect :
      (route : Route) (r : Request) (io : Answers) (st : Store) (m : Manager)
      → route_of r.path ≡ route
      → Effect r m (dispatch codec route r io st m)
  unfolding dispatch list_packages
  dispatch-Effect health_route r io st m e = elim (Bool-cases (is_get r)) [
    | inl t ↦ rw t (kept (λ h. ground arith) (λ h. ground arith) (unchanged m))
    | inr f ↦ rw f (kept (λ h. ground arith) (λ h. ground arith) (unchanged m))
  ]
  dispatch-Effect packages_route r io st m e = elim (Bool-cases (is_get r)) [
    | inl t ↦ rw t (kept (λ h. ground arith) (λ h. ground arith) (unchanged m))
    | inr f ↦ elim (Bool-cases (text_eq r.method (codes "POST"))) [
      | inl post ↦ rw f (rw post (add-Effect r io st m))
      | inr other ↦ rw f (rw other (kept (λ h. ground arith) (λ h. ground arith) (unchanged m)))
    ]
  ]
  dispatch-Effect (package_route name) r io st m e = elim (Bool-cases (is_get r)) [
    | inl t ↦
        rw t (
          same_manager r m (get_package name st m) (get_status name st m).0
            (get_status name st m).1)
    | inr f ↦ elim (Bool-cases (text_eq r.method (codes "DELETE"))) [
      | inl del ↦ rw f (rw del (remove-Effect name r io m e))
      | inr other ↦ rw f (rw other (kept (λ h. ground arith) (λ h. ground arith) (unchanged m)))
    ]
  ]
  dispatch-Effect no_route r io st m e = kept (λ h. ground arith) (λ h. ground arith) (unchanged m)

  -- A request answered by 201 has added the name in its body to the tracked packages, one
  -- answered by 204 has removed the name in its path, each with the list saved and every handler
  -- told; any other request has left the names, the file, the handlers and their calls as they
  -- were.
  pub serve-Effect :
      (token : Text) (r : Request) (io : Answers) (st : Store) (m : Manager)
      → Effect r m (serve codec token r io st m)
  unfolding serve
  serve-Effect token r io st m = elim (Bool-cases (authorized token r)) [
    | inl t ↦ rw t (dispatch-Effect (route_of r.path) r io st m refl)
    | inr f ↦ rw f (same_manager r m (write_error 401) (λ h. ground arith) (λ h. ground arith))
  ]
