-- ===== src/Extractor/Pull/Growth.antt =====
-- What a file has passed that a pull collects, and how the collection grows.
use play_apk_distributor.Prelude.{
  ℕ, ◌≡◌, ◌≢◌, ◌⊎◌, inl, inr, refl, ap, sym, ◌∙◌, true, false, List, [], ◌∷◌, Option, none, some,
  arith, Bool-cases,
}
use mathlib.Core.Path.{subst}
use play_apk_distributor.Text.{Text, text_eq}
use play_apk_distributor.Text.Laws.{text_eq_iff}
use play_apk_distributor.Prelude.Int.{ℤ, pos, negsuc, ltb_ℤ, ◌≤ℤ◌}
use play_apk_distributor.NameSet.{has}
use play_apk_distributor.NameMap.{lookup, insert}
use play_apk_distributor.NameMap.Laws.{lookup-insert}
use play_apk_distributor.Signing.{SignatureError, verify_apk_signature, join_path}
use play_apk_distributor.Device.{Device, Pulled}
use play_apk_distributor.Extractor.Filename.{named, safe_filename}
use play_apk_distributor.Extractor.Pull.{Pulls, Policy, exceeds, check_cert}

-- The file was pulled from this device, from a path on this list with its name as the base name, and
-- is within the limits: no size that `os.Stat` gave was above the policy's, and `apksigner` confirmed
-- the certificate if one is expected.
pub record IsPulled (policy : Policy) (d : Device) (paths : List Text) (dir filename local : Text)
    : Type 0 where
  pub device_path : Text
  pub on_list : has device_path paths ≡ true
  pub pulled : Pulled
  pub from_device : d.pull_file device_path ≡ some pulled
  pub safe_name : safe_filename device_path ≡ named filename
  pub placed : local ≡ join_path dir filename
  pub within : (n : ℕ) → pulled.size ≡ some n → pos n ≤ℤ policy.max_bytes
  pub signed :
      policy.expected_cert ≢ []
      → verify_apk_signature policy.signer pulled.signer_run policy.expected_cert ≡ none

-- so pulled from a connected device, from one of the paths that it lists for the package, to the
-- directory of its ABI
pub record IsChecked (policy : Policy) (pkg tmp_dir : Text) (d : Device) (filename local : Text)
    : Type 0 where
  pub online : d.connected ≡ true
  pub paths : List Text
  pub listed : d.apk_paths pkg ≡ some paths
  pub file : IsPulled policy d paths (join_path tmp_dir d.abi) filename local

-- Whatever is collected stays, at the same local path.
abbrev pub Keeps : Pulls → Pulls → Type 0
Keeps st st' =
    (filename local : Text)
    → lookup filename st.collected ≡ some local
    → lookup filename st'.collected ≡ some local

-- What is collected in the second state was so in the first, or is one of these files; and nothing
-- of the first is lost.
abbrev pub Grows : (Text → Text → Type 0) → Pulls → Pulls → Type 0
Grows P st st' =
    ((filename local : Text)
      → lookup filename st'.collected ≡ some local
      → (lookup filename st.collected ≡ some local) ⊎ P filename local)
    × Keeps st st'

pub same_collected :
    (P : Text → Text → Type 0) (st st' : Pulls) → st'.collected ≡ st.collected → Grows P st st'
same_collected P st st' e = (λ f l k. inl (ap (lookup f) (sym e) ∙ k), λ f l k. ap (lookup f) e ∙ k)

pub Grows-trans :
    (P : Text → Text → Type 0) (a b c : Pulls) → Grows P a b → Grows P b c → Grows P a c
Grows-trans P a b c (p, q) (r, s) =
    (λ f l k. elim (r f l k) [ inl old ↦ p f l old | inr new ↦ inr new ], λ f l k. s f l (q f l k))

pub Grows-mono :
    (P Q : Text → Text → Type 0) (a b : Pulls)
    → ((f l : Text) → P f l → Q f l)
    → Grows P a b
    → Grows Q a b
Grows-mono P Q a b h (p, q) =
    (λ f l k. elim (p f l k) [ inl old ↦ inl old | inr new ↦ inr (h f l new) ], q)

pub Grows-eq : (P : Text → Text → Type 0) (st a b : Pulls) → Grows P st a → b ≡ a → Grows P st b
Grows-eq P st a b g e = rw e g

pub inserted :
    (P : Text → Text → Type 0) (filename local : Text) (st st' : Pulls)
    → P filename local
    → lookup filename st.collected ≡ none
    → st'.collected ≡ insert filename local st.collected
    → Grows P st st'
inserted P filename local st st' new fresh e = (
  λ f l k.
      let now = sym (lookup-insert filename f local st.collected) ∙ ap (lookup f) (sym e) ∙ k in
      elim (Bool-cases (text_eq f filename)) [
        | inl same ↦
            inr (rw ((text_eq_iff f filename).0 same) (subst (P filename) (ground arith) new))
        | inr other ↦ inl (ground arith)
      ],
  λ f l k.
      ap (lookup f) e
      ∙ lookup-insert filename f local st.collected
      ∙ ground (arith, text_eq_iff f filename),
)

le_of_not_ltb : (a : ℤ) (n : ℕ) → ltb_ℤ a (pos n) ≡ false → pos n ≤ℤ a
le_of_not_ltb (pos a) n h = ground arith
le_of_not_ltb (negsuc a) n h = ground arith

pub within_limit :
    (policy : Policy) (p : Pulled)
    → exceeds p.size policy.max_bytes ≡ false
    → (n : ℕ) → p.size ≡ some n
    → pos n ≤ℤ policy.max_bytes
within_limit policy p h n e = le_of_not_ltb policy.max_bytes n (ground arith)

pub signed_if_expected :
    (policy : Policy) (p : Pulled)
    → check_cert policy p ≡ none
    → policy.expected_cert ≢ []
    → verify_apk_signature policy.signer p.signer_run policy.expected_cert ≡ none
unfolding check_cert
signed_if_expected policy p h n = go policy.expected_cert n h
  where
    go :
        (c : Text)
        → c ≢ []
        → (elim c as (λ x. Option SignatureError) [
          | [] ↦ none
          | x ∷ s ↦ verify_apk_signature policy.signer p.signer_run (x ∷ s)
        ])
          ≡ none
        → verify_apk_signature policy.signer p.signer_run c ≡ none
    go [] n h = absurd (n refl)
    go (x ∷ s) n h = h
