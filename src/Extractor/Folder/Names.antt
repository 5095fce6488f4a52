-- ===== src/Extractor/Folder/Names.antt =====
-- The names that an extraction writes to are different.
use play_apk_distributor.Prelude.{
  false, List, ℕ, ◌≡◌, ◌≢◌, refl, ap, sym, ◌∙◌, [], ◌∷◌, ◌++◌, arith,
}
use play_apk_distributor.Prelude.Int.{ℤ, pos, negsuc}
use play_apk_distributor.Text.{Text, codes}
use play_apk_distributor.Text.Laws.{text_eq_iff}
use play_apk_distributor.NameSet.{has}
use play_apk_distributor.Decimal.{itoa, itoa_ℕ}
use play_apk_distributor.Decimal.RoundTrip.{itoa_ℕ-IsDigits, IsDigits, itoa_ℕ-ne-nil}
use play_apk_distributor.Extractor.Folder.{tmp_of, sum_of, latest_name}

append_longer : (s : Text) (c : ℕ) (t : Text) → s ++ c ∷ t ≢ s
append_longer [] c t e = cc
append_longer (x ∷ s) c t e = absurd (append_longer s c t cc)

append_cancel : (s t u : Text) → s ++ t ≡ s ++ u → t ≡ u
append_cancel [] t u e = e
append_cancel (x ∷ s) t u e = append_cancel s t u cc

pub tmp_of-ne : (name : Text) → tmp_of name ≢ name
tmp_of-ne name = append_longer name 46 (codes "tmp")

pub sum_of-ne : (name : Text) → sum_of name ≢ name
sum_of-ne name = append_longer name 46 (codes "sha256")

pub tmp_of-ne-sum_of : (name : Text) → tmp_of name ≢ sum_of name
tmp_of-ne-sum_of name e = absurd (differ (append_cancel name (codes ".tmp") (codes ".sha256") e))
  where
    differ : codes ".tmp" ≢ codes ".sha256"
    differ e = cc

-- a name that is not latest.json, whatever follows
abbrev pub IsOther : Text → Type 0
IsOther s = (c : ℕ) × (t : Text) × (s ≡ c ∷ t) × (c ≢ 108)

pub append-IsOther : (s t : Text) → IsOther s → IsOther (s ++ t)
append-IsOther s t (c, r, e, n) = (c, r ++ t, ap (λ x. x ++ t) e, n)

head_eq : (c d : ℕ) (t u : Text) → c ∷ t ≡ d ∷ u → c ≡ d
head_eq c d t u e = cc

pub other-ne-latest : (s : Text) → IsOther s → s ≢ latest_name
other-ne-latest s (c, t, e, n) k = absurd (n (head_eq c 108 t _ (sym e ∙ k)))

pub other-ne-tmp : (s : Text) → IsOther s → s ≢ tmp_of latest_name
other-ne-tmp s (c, t, e, n) k = absurd (n (head_eq c 108 t _ (sym e ∙ k)))

digits-IsOther : (s : Text) → s ≢ [] → IsDigits s → IsOther s
digits-IsOther [] n h = absurd (n refl)
digits-IsOther (c ∷ s) n (d, h) = (c, s, refl, λ e. absurd (ground arith))

pub itoa-IsOther : (z : ℤ) → IsOther (itoa z)
unfolding itoa
itoa-IsOther (pos n) = digits-IsOther (itoa_ℕ n) (itoa_ℕ-ne-nil n) (itoa_ℕ-IsDigits n)
itoa-IsOther (negsuc n) = (45, _, refl, λ e. absurd (ground arith))

pub has-none : (n a : Text) (ns : List Text) → n ≢ a → has n ns ≡ false → has n (a ∷ ns) ≡ false
unfolding has
has-none n a ns h k = ground (arith, text_eq_iff n a)

pub has-nil : (n : Text) → has n [] ≡ false
unfolding has
has-nil n = refl

pub has-one : (n a : Text) → n ≢ a → has n (a ∷ []) ≡ false
has-one n a h = has-none n a [] h (has-nil n)

pub other-apart : (m : Text) → IsOther m → has m (latest_name ∷ tmp_of latest_name ∷ []) ≡ false
other-apart m i =
    has-none m latest_name _ (other-ne-latest m i)
      (has-one m (tmp_of latest_name) (other-ne-tmp m i))

-- latest.json is none of the files of an output
pub latest-apart : (m : Text) → IsOther m → has latest_name (m ∷ tmp_of m ∷ sum_of m ∷ []) ≡ false
latest-apart m i =
    has-none latest_name m _ (λ e. other-ne-latest m i (sym e))
      (has-none latest_name (tmp_of m) _
        (λ e. other-ne-latest (tmp_of m) (append-IsOther m _ i) (sym e))
        (has-one latest_name (sum_of m)
          (λ e. other-ne-latest (sum_of m) (append-IsOther m _ i) (sym e))))
