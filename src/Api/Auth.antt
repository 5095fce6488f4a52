-- ===== src/Api/Auth.antt =====
-- Who is let through, and what a request reads after another.
use play_apk_distributor.Prelude.{
  ◌≡◌, ◌≢◌, ◌↔◌, refl, ◌∙◌, true, false, List, [], ◌++◌, some, arith, Bool-cases, inl, inr,
  if◌then◌else◌,
}
use play_apk_distributor.Text.{Text, codes}
use play_apk_distributor.Text.Laws.{text_eq_iff}
use play_apk_distributor.Storage.{Answers, Codec}
use play_apk_distributor.PackageName.{valid_package_name}
use play_apk_distributor.Packages.{Manager, tracked, validate_package_name}
use play_apk_distributor.Packages.Adding.{Added}
use play_apk_distributor.Packages.Removing.{Removed}
use play_apk_distributor.Store.{Store}
use play_apk_distributor.Api.{
  Request, Response, Route, health_route, packages_route, package_route, no_route, is_get,
  authorized, route_of, write_error, get_package, list_packages, add_named, add_package,
  remove_package, dispatch, serve, package_info, info, health_path,
}
use play_apk_distributor.Api.Effects.{Effect, created, deleted, kept, serve-Effect}

-- a request for another path than /health without the token, where there is one
pub IsRefused : Text → Request → Type 0
IsRefused token r =
    (r.path ≢ health_path) × (token ≢ []) × (r.authorization ≢ codes "Bearer " ++ token)

authorized_not : (token : Text) (r : Request) → (authorized token r ≡ false) ↔ IsRefused token r
unfolding authorized IsRefused
authorized_not token r = (
  λ h. (
    λ e. ground (arith, text_eq_iff r.path health_path),
    λ e. ground (arith, text_eq_iff token []),
    λ e. ground (arith, text_eq_iff r.authorization (codes "Bearer " ++ token)),
  ),
  λ (a, b, c). ground (
    arith,
    text_eq_iff r.path health_path,
    text_eq_iff token [],
    text_eq_iff r.authorization (codes "Bearer " ++ token),
    a,
    b,
    c,
  ),
)

-- a request for one package that is let through
abbrev pub IsLookup : Text → Text → Request → Type 0
IsLookup token name r =
    (authorized token r ≡ true) × (route_of r.path ≡ package_route name) × (is_get r ≡ true)

module _ (codec : Codec (List Text)) where
  dispatch_status :
      (route : Route) (r : Request) (io : Answers) (st : Store) (m : Manager)
      → (dispatch codec route r io st m).0.status ≢ 401
  unfolding dispatch list_packages get_package add_package add_named remove_package
  dispatch_status health_route r io st m h = ground arith
  dispatch_status packages_route r io st m h = ground arith
  dispatch_status (package_route name) r io st m h = ground arith
  dispatch_status no_route r io st m h = ground arith

  -- A request is answered by 401 exactly when it is for another path than /health, a token is
  -- set, and the Authorization header is not "Bearer " with that token; and then the manager
  -- stays as it is.
  pub serve_unauthorized :
      (token : Text) (r : Request) (io : Answers) (st : Store) (m : Manager)
      → (((serve codec token r io st m).0.status ≡ 401) ↔ IsRefused token r)
        × (IsRefused token r → (serve codec token r io st m).1 ≡ m)
  unfolding serve
  serve_unauthorized token r io st m = elim (Bool-cases (authorized token r)) [
    | inl t ↦ (
      (
        λ h. absurd (dispatch_status (route_of r.path) r io st m (ground arith)),
        λ k. absurd (ground (arith, (authorized_not token r).1 k)),
      ),
      λ k. absurd (ground (arith, (authorized_not token r).1 k)),
    )
    | inr f ↦ ((λ h. (authorized_not token r).0 f, λ k. ground arith), λ k. ground arith)
  ]

  lookup_answer :
      (token name : Text) (r : Request) (io : Answers) (st : Store) (m : Manager)
      → IsLookup token name r
      → valid_package_name name ≡ true
      → serve codec token r io st m ≡ (
        (if tracked m name
            then record { status = 200; body = info (package_info st name) }
            else write_error 404),
        m,
      )
  unfolding serve dispatch get_package validate_package_name
  lookup_answer token name r io st m (a, b, c) good = elim (Bool-cases (tracked m name)) [
    | inl t ↦ ground arith
    | inr f ↦ ground arith
  ]

  created_status :
      (r : Request) (m : Manager) (p : Response × Manager) (name : Text)
      → Effect codec r m p
      → p.0.status ≡ 201
      → r.decoded ≡ some name
      → Added codec name m p.1
  created_status r m p name (created n s e x) h d = coe 0 1 (i. Added codec (same i) m p.1) x
    where
      same : n ≡ name
      same = cc (e, d)
  created_status r m p name (deleted n s v e x) h d = absurd (ground arith)
  created_status r m p name (kept a b x) h d = absurd (a h)

  deleted_status :
      (r : Request) (m : Manager) (p : Response × Manager) (name : Text)
      → Effect codec r m p
      → p.0.status ≡ 204
      → route_of r.path ≡ package_route name
      → (valid_package_name name ≡ true) × Removed codec name m p.1
  deleted_status r m p name (deleted n s v e x) h d =
      coe 0 1 (i. (valid_package_name (same i) ≡ true) × Removed codec (same i) m p.1) (v, x)
    where
      same : n ≡ name
      same = cc (e, d)
  deleted_status r m p name (created n s e x) h d = absurd (ground arith)
  deleted_status r m p name (kept a b x) h d = absurd (b h)

  -- Once a request has been answered by 201, a lookup of the package named in its body, if it is
  -- let through, is answered by 200 with what the store knows of it.
  pub lookup_created :
      (token name : Text) (r next : Request) (io io' : Answers) (st : Store) (m : Manager)
      → (serve codec token r io st m).0.status ≡ 201
      → r.decoded ≡ some name
      → IsLookup token name next
      → (serve codec token next io' st (serve codec token r io st m).1).0
        ≡ record { status = 200; body = info (package_info st name) }
  lookup_created token name r next io io' st m h d ask =
      let m' = (serve codec token r io st m).1 in
      let added =
        created_status r m (serve codec token r io st m) name (serve-Effect codec token r io st m) h
          d in
      let there : tracked m' name ≡ true =
        added.names name ∙ ground (arith, text_eq_iff name name) in
      rw (lookup_answer token name next io' st m' ask added.valid) (rw there refl)

  -- Once a request for the path of a package has been answered by 204, a lookup of it, if it is
  -- let through, is answered by 404.
  pub lookup_deleted :
      (token name : Text) (r next : Request) (io io' : Answers) (st : Store) (m : Manager)
      → (serve codec token r io st m).0.status ≡ 204
      → route_of r.path ≡ package_route name
      → IsLookup token name next
      → (serve codec token next io' st (serve codec token r io st m).1).0 ≡ write_error 404
  lookup_deleted token name r next io io' st m h d ask =
      let m' = (serve codec token r io st m).1 in
      let (good, removed) =
        deleted_status r m (serve codec token r io st m) name (serve-Effect codec token r io st m) h
          d in
      let gone : tracked m' name ≡ false =
        removed.names name ∙ ground (arith, text_eq_iff name name) in
      rw (lookup_answer token name next io' st m' ask good) (rw gone refl)
