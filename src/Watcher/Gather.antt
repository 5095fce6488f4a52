-- ===== src/Watcher/Gather.antt =====
-- The goroutines of `checkPackage` in watcher/watcher.go: each writes the result of its emulator at its
-- index, and they end in any order.
pub mod Laws
use play_apk_distributor.Prelude.{
  ℕ, zero, suc, Bool, true, false, ◌||◌, ◌==◌, List, [], ◌∷◌, map, Option, none, some,
}
use play_apk_distributor.Text.{Text}
use play_apk_distributor.Device.{Device}
use play_apk_distributor.Adb.Version.{VersionInfo, no_info}
use play_apk_distributor.Watcher.{query}

module _ {ℓ} {A : Type ℓ} where
  -- xs[i], if it is there
  pub get_elem? : List A → ℕ → Option A
  get_elem? [] i = none
  get_elem? (x ∷ xs) zero = some x
  get_elem? (x ∷ xs) (suc i) = get_elem? xs i

  -- xs[i] = y
  pub set_elem : ℕ → A → List A → List A
  set_elem i y [] = []
  set_elem zero y (x ∷ xs) = y ∷ xs
  set_elem (suc i) y (x ∷ xs) = x ∷ set_elem i y xs

-- the index is in the list
unfoldable pub has_index : ℕ → List ℕ → Bool
has_index i [] = false
has_index i (j ∷ js) = i == j || has_index i js

-- make([]result, len(clients)): a zero result has no error
pub zero_results : List Device → List (Option VersionInfo)
zero_results clients = map (λ c. some no_info) clients

-- the end of the goroutine with this index; `none` is a result with an error
pub end_goroutine : Text → List Device → ℕ → List (Option VersionInfo) → List (Option VersionInfo)
unfolding get_elem? set_elem
end_goroutine pkg clients i results = elim (get_elem? clients i) [
  | none ↦ results
  | some c ↦ set_elem i (query pkg c) results
]

-- the goroutines in the order in which they end
pub end_all : Text → List Device → List ℕ → List (Option VersionInfo) → List (Option VersionInfo)
unfolding end_goroutine
end_all pkg clients [] results = results
end_all pkg clients (i ∷ order) results =
    end_all pkg clients order (end_goroutine pkg clients i results)

-- the loop that leaves out the results with an error
pub connected : List (Option VersionInfo) → List VersionInfo
connected [] = []
connected (none ∷ results) = connected results
connected (some v ∷ results) = v ∷ connected results
