-- ===== src/Result.antt =====
-- Go's `error` results. The constructors of `Error` are the errors of store/store.go and
-- packages/packages.go; their texts are not modelled.
use play_apk_distributor.Prelude.{◌≡◌, refl, ◌⊎◌, inl, inr}

pub data Error : Type 0 where
  invalid_name already_tracked not_tracked : Error
  marshal_failed write_failed rename_failed : Error
  read_failed parse_failed mkdir_failed : Error

pub data Result {ℓ} (A : Type ℓ) : Type ℓ where
  ok : A → Result A
  err : Error → Result A

abbrev pub done : Result (Unit {0})
done = ok tt

pub Result-cases {ℓ} :
    {A : Type ℓ} (r : Result A) → ((a : A) × (r ≡ ok a)) ⊎ ((e : Error) × (r ≡ err e))
Result-cases (ok a) = inl (a, refl)
Result-cases (err e) = inr (e, refl)
