-- ===== src/Watcher/Gather/Laws.antt =====
-- The order in which the goroutines end does not matter.
use play_apk_distributor.Prelude.{
  ℕ, zero, suc, ◌<◌, ◌≡◌, refl, ap, sym, ◌∙◌, inl, inr, true, ◌==◌, ==_iff, List, [], ◌∷◌, map,
  Option, none, some, arith, length, Option-cases, if◌then◌else◌,
}
use play_apk_distributor.Text.{Text}
use play_apk_distributor.Device.{Device}
use play_apk_distributor.Adb.Version.{VersionInfo, no_info}
use play_apk_distributor.Watcher.{query, answers}
use play_apk_distributor.Watcher.Gather.{
  get_elem?, set_elem, has_index, zero_results, end_goroutine, end_all, connected,
}

module _ {ℓ} {A : Type ℓ} where
  set_elem-length : (i : ℕ) (y : A) (xs : List A) → length (set_elem i y xs) ≡ length xs
  unfolding set_elem
  set_elem-length i y [] = refl
  set_elem-length zero y (x ∷ xs) = refl
  set_elem-length (suc i) y (x ∷ xs) = ap suc (set_elem-length i y xs)

  get-set_elem :
      (i j : ℕ) (y : A) (xs : List A)
      → j < length xs
      → get_elem? (set_elem i y xs) j ≡ (if j == i then some y else get_elem? xs j)
  unfolding get_elem? set_elem
  get-set_elem i j y [] h = absurd (omega arith)
  get-set_elem zero zero y (x ∷ xs) h = ground arith
  get-set_elem zero (suc j) y (x ∷ xs) h = ground arith
  get-set_elem (suc i) zero y (x ∷ xs) h = ground arith
  get-set_elem (suc i) (suc j) y (x ∷ xs) h = ground (arith, get-set_elem i j y xs)

  get_elem?-ext :
      (xs ys : List A)
      → length xs ≡ length ys
      → ((i : ℕ) → i < length xs → get_elem? xs i ≡ get_elem? ys i)
      → xs ≡ ys
  unfolding get_elem?
  get_elem?-ext [] [] e h = refl
  get_elem?-ext [] (y ∷ ys) e h = absurd (omega arith)
  get_elem?-ext (x ∷ xs) [] e h = absurd (omega arith)
  get_elem?-ext (x ∷ xs) (y ∷ ys) e h =
      let head : some x ≡ some y = h zero (omega arith) in
      cc (head, get_elem?-ext xs ys (omega arith) (λ i k. h (suc i) (omega arith)))

  get-map {κ} :
      {B : Type κ} (f : A → B) (xs : List A) (i : ℕ) (x : A)
      → get_elem? xs i ≡ some x
      → get_elem? (map f xs) i ≡ some (f x)
  unfolding get_elem?
  get-map f [] i x h = cc
  get-map f (y ∷ xs) zero x h = cc
  get-map f (y ∷ xs) (suc i) x h = get-map f xs i x h

  get-inside : (xs : List A) (i : ℕ) → get_elem? xs i ≡ none → i < length xs → ⊥
  unfolding get_elem?
  get-inside [] i h k = absurd (omega arith)
  get-inside (x ∷ xs) zero h k = cc
  get-inside (x ∷ xs) (suc i) h k = get-inside xs i h (omega arith)

  length-map {κ} : {B : Type κ} (f : A → B) (xs : List A) → length (map f xs) ≡ length xs
  length-map f [] = refl
  length-map f (x ∷ xs) = ap suc (length-map f xs)

module _ (pkg : Text) (clients : List Device) where
  end_goroutine-length :
      (i : ℕ) (rs : List (Option VersionInfo)) → length (end_goroutine pkg clients i rs) ≡ length rs
  unfolding end_goroutine
  end_goroutine-length i rs = elim (Option-cases (get_elem? clients i)) [
    | inl e ↦ ground arith
    | inr (c, e) ↦ ground (arith, set_elem-length i (query pkg c) rs)
  ]

  get-end_goroutine :
      (i j : ℕ) (rs : List (Option VersionInfo))
      → length rs ≡ length clients
      → j < length rs
      → get_elem? (end_goroutine pkg clients i rs) j
        ≡ (if j == i then get_elem? (map (query pkg) clients) j else get_elem? rs j)
  unfolding end_goroutine
  get-end_goroutine i j rs e h = elim (Option-cases (get_elem? clients i)) [
    | inl k ↦ ground (arith, get-inside clients i k, ==_iff j i)
    | inr (c, k) ↦
        ground (
          arith,
          get-set_elem i j (query pkg c) rs h,
          get-map (query pkg) clients i c k,
          ==_iff j i,
        )
  ]

  end_all-length :
      (order : List ℕ) (rs : List (Option VersionInfo))
      → length (end_all pkg clients order rs) ≡ length rs
  unfolding end_all
  end_all-length [] rs = refl
  end_all-length (i ∷ order) rs =
      end_all-length order (end_goroutine pkg clients i rs) ∙ end_goroutine-length i rs

  get-end_all :
      (order : List ℕ) (j : ℕ) (rs : List (Option VersionInfo))
      → length rs ≡ length clients
      → j < length rs
      → get_elem? (end_all pkg clients order rs) j
        ≡ (if has_index j order then get_elem? (map (query pkg) clients) j else get_elem? rs j)
  unfolding end_all has_index
  get-end_all [] j rs e h = refl
  get-end_all (i ∷ order) j rs e h =
      let n = end_goroutine-length i rs in
      ground (
        arith,
        get-end_all order j (end_goroutine pkg clients i rs) (n ∙ e) (omega (arith, n, h)),
        get-end_goroutine i j rs e h,
      )

  zero_results-length : length (zero_results clients) ≡ length clients
  unfolding zero_results
  zero_results-length = length-map (λ c. some no_info) clients

connected-answers :
    (pkg : Text) (clients : List Device) → connected (map (query pkg) clients) ≡ answers pkg clients
unfolding connected answers
connected-answers pkg [] = refl
connected-answers pkg (d ∷ ds) = ground (arith, connected-answers pkg ds)

-- Once each goroutine of a check has ended, in whatever order, the results without an error are
-- the answers of the clients in their order.
pub connected-end_all :
    (pkg : Text) (clients : List Device) (order : List ℕ)
    → ((i : ℕ) → i < length clients → has_index i order ≡ true)
    → connected (end_all pkg clients order (zero_results clients)) ≡ answers pkg clients
connected-end_all pkg clients order h =
    let n =
      end_all-length pkg clients order (zero_results clients) ∙ zero_results-length pkg clients in
    let m = length-map (query pkg) clients in
    let same : end_all pkg clients order (zero_results clients) ≡ map (query pkg) clients =
      get_elem?-ext _ _ (n ∙ sym m) (λ i k.
        get-end_all pkg clients order i (zero_results clients) (zero_results-length pkg clients)
          (omega (arith, k, n, zero_results-length pkg clients))
        ∙ picked i (h i (omega (arith, k, n)))) in
    ap connected same ∙ connected-answers pkg clients
  where
    picked :
        (i : ℕ)
        → has_index i order ≡ true
        → (if has_index i order
            then get_elem? (map (query pkg) clients) i
            else get_elem? (zero_results clients) i)
          ≡ get_elem? (map (query pkg) clients) i
    picked i e = rw e refl
