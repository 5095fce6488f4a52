-- ===== src/Text/Laws.antt =====
-- Equality of texts, and the laws of the prefix and suffix functions.
use play_apk_distributor.Prelude.{
  ℕ, ◌≡◌, ◌≢◌, refl, ap, length, length-append, ◌↔◌, true, [], ◌∷◌, ◌++◌, some, arith, Option-cases,
  inl, inr,
}
use play_apk_distributor.Text.{Text, text_eq, cut_prefix, cut_suffix}

pub text_eq_sound : (s t : Text) → text_eq s t ≡ true → s ≡ t
unfolding text_eq
text_eq_sound [] [] h = refl
text_eq_sound [] (y ∷ t) h = cc
text_eq_sound (x ∷ s) [] h = cc
text_eq_sound (x ∷ s) (y ∷ t) h = ground (arith, text_eq_sound s t)

pub text_eq_refl : (s : Text) → text_eq s s ≡ true
unfolding text_eq
text_eq_refl [] = refl
text_eq_refl (x ∷ s) = ground (arith, text_eq_refl s)

pub text_eq_iff : (s t : Text) → (text_eq s t ≡ true) ↔ (s ≡ t)
text_eq_iff s t = (text_eq_sound s t, λ e. rw e (text_eq_refl t))

pub text_eq_symm : (s t : Text) → text_eq s t ≡ text_eq t s
text_eq_symm s t = ground (arith, text_eq_iff s t, text_eq_iff t s)

-- a prefix that is cut off was there
pub cut_prefix_sound : (s p r : Text) → cut_prefix s p ≡ some r → s ≡ p ++ r
unfolding cut_prefix
cut_prefix_sound s [] r h = ground arith
cut_prefix_sound [] (y ∷ p) r h = cc
cut_prefix_sound (x ∷ s) (y ∷ p) r h = ground (arith, cut_prefix_sound s p r)

pub cut_prefix-append : (p r : Text) → cut_prefix (p ++ r) p ≡ some r
unfolding cut_prefix
cut_prefix-append [] r = refl
cut_prefix-append (x ∷ p) r = ground (arith, cut_prefix-append p r)

pub cut_suffix_sound : (s p r : Text) → cut_suffix s p ≡ some r → s ≡ r ++ p
unfolding cut_suffix
cut_suffix_sound [] p r h = ground (arith, text_eq_iff [] p)
cut_suffix_sound (x ∷ s) p r h = elim (Option-cases (cut_suffix s p)) [
  | inl e ↦ ground (arith, text_eq_iff (x ∷ s) p)
  | inr (t, e) ↦ ground (arith, text_eq_iff (x ∷ s) p, cut_suffix_sound s p t e)
]

append_longer : (c : ℕ) (r p : Text) → c ∷ (r ++ p) ≢ p
append_longer c r p e = absurd (omega (arith, length-append r p, ap length e))

-- a suffix that is there is cut off
pub cut_suffix-append : (r p : Text) → cut_suffix (r ++ p) p ≡ some r
unfolding cut_suffix
cut_suffix-append [] [] = ground (arith, text_eq_refl [])
cut_suffix-append [] (y ∷ p) = ground (arith, text_eq_refl (y ∷ p))
cut_suffix-append (x ∷ r) p =
    ground (arith, cut_suffix-append r p, text_eq_iff (x ∷ (r ++ p)) p, append_longer x r p)
