-- ===== src/Extractor/Filename/Parts.antt =====
-- Where the last part of a path stands in it, and the slashes behind it.
use play_apk_distributor.Prelude.{
  ℕ, zero, suc, ◌≡◌, ◌⊎◌, inl, inr, refl, ap, sym, ◌∙◌, List, [], ◌∷◌, ◌++◌, arith, Bool-cases,
  ◌==◌, if◌then◌else◌,
}
use play_apk_distributor.Text.{Text, split}
use play_apk_distributor.Text.Split.{first_part, more_parts, split-parts}
use play_apk_distributor.Extractor.Filename.{strip_slashes, last_part}

-- slashes alone
abbrev pub slashes : ℕ → Text
slashes zero = []
slashes (suc k) = 47 ∷ slashes k

-- the slashes that are dropped
pub strip_slashes-split : (s : Text) → (k : ℕ) × (s ≡ strip_slashes s ++ slashes k)
unfolding strip_slashes
strip_slashes-split [] = (0, refl)
strip_slashes-split (c ∷ s) = let (k, e) = strip_slashes-split s in go (strip_slashes s) k e
  where
    go :
        (t : Text) (k : ℕ)
        → s ≡ t ++ slashes k
        → (m : ℕ) × (c ∷ s
            ≡ (elim t as (λ x. Text) [ [] ↦ if c == b'/' then [] else c ∷ [] | d ∷ u ↦ c ∷ d ∷ u ])
              ++ slashes m)
    go (d ∷ u) k e = (k, ap (◌∷◌ c) e)
    go [] k e = elim (Bool-cases (c == b'/')) [
      | inl slash ↦ (suc k, ground arith)
      | inr other ↦ (k, ground arith)
    ]

pub strip_slashes-slashes : (s : Text) (k : ℕ) → strip_slashes (s ++ slashes k) ≡ strip_slashes s
unfolding strip_slashes
strip_slashes-slashes [] zero = refl
strip_slashes-slashes [] (suc k) = ground (arith, strip_slashes-slashes [] k)
strip_slashes-slashes (c ∷ s) k = ground (arith, strip_slashes-slashes s k)

first_alone : (s : Text) → more_parts b'/' s ≡ [] → first_part b'/' s ≡ s
unfolding first_part more_parts
first_alone [] e = refl
first_alone (c ∷ s) e = ground (arith, first_alone s)

-- where the last of several parts begins
last_behind :
    (t p : Text) (ps : List Text)
    → more_parts b'/' t ≡ p ∷ ps
    → (dir : Text) × (t ≡ dir ++ 47 ∷ last_part (p ∷ ps))
unfolding more_parts last_part
last_behind [] p ps e = cc
last_behind (c ∷ s) p [] e = elim (Bool-cases (c == b'/')) [
  | inl slash ↦
      let rest : more_parts b'/' s ≡ [] = ground arith in
      let alone = first_alone s rest in ([], ground arith)
  | inr other ↦ let (dir, f) = last_behind s p [] (ground arith) in (c ∷ dir, ap (◌∷◌ c) f)
]
last_behind (c ∷ s) p (q ∷ qs) e = elim (Bool-cases (c == b'/')) [
  | inl slash ↦ let (dir, f) = last_behind s q qs (ground arith) in (c ∷ dir, ap (◌∷◌ c) f)
  | inr other ↦ let (dir, f) = last_behind s p (q ∷ qs) (ground arith) in (c ∷ dir, ap (◌∷◌ c) f)
]

pub last_part-one : (p : Text) → last_part (p ∷ []) ≡ p
unfolding last_part
last_part-one p = refl

last_part-more : (p q : Text) (ps : List Text) → last_part (p ∷ q ∷ ps) ≡ last_part (q ∷ ps)
unfolding last_part
last_part-more p q ps = refl

-- a text is its last part, or ends in a slash and that
pub last_of :
    (t : Text)
    → (t ≡ last_part (split b'/' t)) ⊎ ((dir : Text) × (t ≡ dir ++ 47 ∷ last_part (split b'/' t)))
last_of t = go (more_parts b'/' t) (split-parts b'/' t) refl
  where
    go :
        (ps : List Text)
        → split b'/' t ≡ first_part b'/' t ∷ more_parts b'/' t
        → more_parts b'/' t ≡ ps
        → (t ≡ last_part (split b'/' t))
          ⊎ ((dir : Text) × (t ≡ dir ++ 47 ∷ last_part (split b'/' t)))
    go [] h e =
        let same = ap last_part (h ∙ ap (◌∷◌ (first_part b'/' t)) e) in
        inl (sym (first_alone t e) ∙ sym (last_part-one (first_part b'/' t)) ∙ sym same)
    go (p ∷ ps) h e =
        let (dir, f) = last_behind t p ps e in
        let same = ap last_part (h ∙ ap (◌∷◌ (first_part b'/' t)) e) in
        let last = sym (last_part-more (first_part b'/' t) p ps) ∙ sym same in
        inr (dir, f ∙ ap (λ x. dir ++ 47 ∷ x) last)
