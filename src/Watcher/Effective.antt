-- ===== src/Watcher/Effective.antt =====
-- The packages that a poll visits.
use play_apk_distributor.Prelude.{
  ◌≡◌, refl, ap, sym, ◌∙◌, false, ◌||◌, List, [], ◌∷◌, ◌++◌, arith, Bool-cases, inl, inr,
}
use play_apk_distributor.Text.{Text, text_eq}
use play_apk_distributor.Text.Laws.{text_eq_iff}
use play_apk_distributor.NameSet.{has, IsSetList, SameNames}
use play_apk_distributor.NameSet.Laws.{has-include, has-append}
use play_apk_distributor.Watcher.{add_name, add_names, effective_packages}

-- the set `seen` and the result hold the same names, and the result none twice
IsEven : List Text × List Text → Type 0
IsEven acc = SameNames acc.0 acc.1 × IsSetList acc.1

snoc-IsSetList :
    (p : Text) (xs : List Text) → has p xs ≡ false → IsSetList xs → IsSetList (xs ++ p ∷ [])
unfolding has
snoc-IsSetList p [] h k = (refl, tt)
snoc-IsSetList p (x ∷ xs) h (fresh, k) = (
  ground (arith, has-append x xs (p ∷ []), text_eq_iff x p, text_eq_iff p x),
  snoc-IsSetList p xs (ground arith) k,
)

has-snoc : (n p : Text) (xs : List Text) → has n (xs ++ p ∷ []) ≡ (text_eq n p || has n xs)
unfolding has
has-snoc n p xs = ground (arith, has-append n xs (p ∷ []))

add_name-IsEven : (p : Text) (acc : List Text × List Text) → IsEven acc → IsEven (add_name p acc)
unfolding IsEven add_name
add_name-IsEven p (seen, result) (same, k) = elim (Bool-cases (has p seen)) [
  | inl old ↦ rw old (same, k)
  | inr new ↦ rw new (
    λ n. has-include p n seen ∙ ap (λ b. text_eq n p || b) (same n) ∙ sym (has-snoc n p result),
    snoc-IsSetList p result (sym (same p) ∙ new) k,
  )
]

add_name-has :
    (p n : Text) (acc : List Text × List Text)
    → IsEven acc
    → has n (add_name p acc).1 ≡ (text_eq n p || has n acc.1)
unfolding IsEven add_name
add_name-has p n (seen, result) (same, k) = elim (Bool-cases (has p seen)) [
  | inl old ↦ rw old (ground (arith, same p, text_eq_iff n p))
  | inr new ↦ rw new (has-snoc n p result)
]

add_names-IsEven :
    (ps : List Text) (acc : List Text × List Text) → IsEven acc → IsEven (add_names ps acc)
unfolding add_names
add_names-IsEven [] acc h = h
add_names-IsEven (p ∷ ps) acc h = add_names-IsEven ps (add_name p acc) (add_name-IsEven p acc h)

add_names-has :
    (ps : List Text) (n : Text) (acc : List Text × List Text)
    → IsEven acc
    → has n (add_names ps acc).1 ≡ (has n ps || has n acc.1)
unfolding add_names has
add_names-has [] n acc h = refl
add_names-has (p ∷ ps) n acc h =
    ground
      (arith, add_names-has ps n (add_name p acc) (add_name-IsEven p acc h), add_name-has p n acc h)

append_assoc : (xs ys zs : List Text) → (xs ++ ys) ++ zs ≡ xs ++ (ys ++ zs)
append_assoc [] ys zs = refl
append_assoc (x ∷ xs) ys zs = ap (λ t. x ∷ t) (append_assoc xs ys zs)

append-nil : (xs : List Text) → xs ++ [] ≡ xs
append-nil [] = refl
append-nil (x ∷ xs) = ap (λ t. x ∷ t) (append-nil xs)

add_name-extends :
    (p : Text) (acc : List Text × List Text)
    → (more : List Text) × ((add_name p acc).1 ≡ acc.1 ++ more)
unfolding add_name
add_name-extends p (seen, result) = elim (Bool-cases (has p seen)) [
  | inl old ↦ ([], rw old (sym (append-nil result)))
  | inr new ↦ (p ∷ [], rw new refl)
]

add_names-extends :
    (ps : List Text) (acc : List Text × List Text)
    → (more : List Text) × ((add_names ps acc).1 ≡ acc.1 ++ more)
unfolding add_names
add_names-extends [] acc = ([], sym (append-nil acc.1))
add_names-extends (p ∷ ps) acc =
    let (first, e) = add_name-extends p acc in
    let (rest, k) = add_names-extends ps (add_name p acc) in
    (first ++ rest, k ∙ ap (λ t. t ++ rest) e ∙ append_assoc acc.1 first rest)

-- what `effectivePackages` promises
pub record IsMerged (static dynamic result : List Text) : Type 0 where
  pub members : (name : Text) → has name result ≡ (has name static || has name dynamic)
  pub once : IsSetList result
  -- the packages of the configuration stand first, as they would without the manager
  pub dynamic_last : (more : List Text) × (result ≡ effective_packages static [] ++ more)

-- The packages of a poll are those of the configuration and those of the manager, each of them
-- once, and the list begins with what it would be without the manager.
pub effective_packages-IsMerged :
    (static dynamic : List Text) → IsMerged static dynamic (effective_packages static dynamic)
unfolding effective_packages IsEven has
effective_packages-IsMerged static dynamic =
    let start : IsEven ([], []) = (λ n. refl, tt) in
    let first = add_names static ([], []) in
    let even = add_names-IsEven static ([], []) start in
    record {
      members = λ n.
          add_names-has dynamic n first even
          ∙ ap (λ b. has n dynamic || b) (add_names-has static n ([], []) start)
          ∙ swap n;
      once = (add_names-IsEven dynamic first even).1;
      dynamic_last = add_names-extends dynamic first;
    }
  where
    swap :
        (n : Text) → (has n dynamic || (has n static || has n [])) ≡ (has n static || has n dynamic)
    swap n = ground arith
