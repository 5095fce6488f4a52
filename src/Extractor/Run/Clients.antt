-- ===== src/Extractor/Run/Clients.antt =====
-- The loop over the clients: what is collected afterwards, and where it comes from.
use play_apk_distributor.Prelude.{
  ◌≡◌, ◌≤◌, inl, inr, refl, sym, ◌∙◌, ap, Bool, true, false, ◌||◌, List, [], ◌∷◌, Option, none,
  some, arith, All, Any, length, ltb, Bool-cases, Option-cases,
}
use mathlib.Core.Path.{subst}
use play_apk_distributor.Text.{Text}
use play_apk_distributor.Signing.{join_path}
use play_apk_distributor.Device.{Device}
use play_apk_distributor.Extractor.Pull.{Pulls, PullError, Policy, pull_all, pull_from_client}
use play_apk_distributor.Extractor.Pull.Growth.{IsChecked, Grows, Grows-trans, Grows-mono, Keeps}
use play_apk_distributor.Extractor.Pull.Laws.{pull_from_client-Grows}
use play_apk_distributor.Extractor.Pull.Complete.{IsCollected, pull_all_done}
use play_apk_distributor.Extractor.Run.{Host, pull_clients}

-- pulled from one of the devices, with every check passed
abbrev pub FromSome : Policy → Text → Text → List Device → Text → Text → Type 0
FromSome policy pkg tmp ds filename local = Any (λ d. IsChecked policy pkg tmp d filename local) ds

-- so for the list of paths of each device that is connected and lists any
abbrev pub AllListed : (List Text → Type 0) → Text → List Device → Type 0
AllListed Q pkg = All (λ (d : Device).
    d.connected ≡ true → (paths : List Text) → d.apk_paths pkg ≡ some paths → Q paths)

module _ (host : Host) (policy : Policy) (pkg tmp : Text) where
  pub pull_clients-Grows :
      (ds : List Device) (is_split : Bool) (st : Pulls)
      → Grows (FromSome policy pkg tmp ds) st (pull_clients host policy pkg tmp ds is_split st).2
  unfolding pull_clients
  pull_clients-Grows [] is_split st = (λ f l e. inl e, λ f l e. e)
  pull_clients-Grows (d ∷ ds) is_split st =
      let P = FromSome policy pkg tmp (d ∷ ds) in
      let made = host.emulator_dir_ok d.abi in
      let r = pull_from_client policy d pkg tmp made st in
      let rest = pull_clients host policy pkg tmp ds (r.1 || is_split) r.2 in
      let first : Grows P st r.2 =
        Grows-mono (IsChecked policy pkg tmp d) P st r.2 (λ f l c. inl c)
          (pull_from_client-Grows policy d pkg tmp made st) in
      let more : Grows P r.2 rest.2 =
        Grows-mono (FromSome policy pkg tmp ds) P r.2 rest.2 (λ f l c. inr c)
          (pull_clients-Grows ds (r.1 || is_split) r.2) in
      go P r.0 r.2 rest.2 first (Grows-trans P st r.2 rest.2 first more) rest refl
    where
      go :
          (P : Text → Text → Type 0) (e : Option PullError) (mid end : Pulls)
          → Grows P st mid
          → Grows P st end
          → (rest : Option PullError × Bool × Pulls) → rest.2 ≡ end
          → Grows P st (
              (elim e as (λ x. Option PullError × Bool × Pulls) [
                | some x ↦ (some x, is_split, mid)
                | none ↦ rest
              ]).2)
      go P (some x) mid end g k rest e = g
      go P none mid end g k rest e = rw e k

  pull_from_client_done :
      (d : Device) (made : Bool) (st : Pulls)
      → (pull_from_client policy d pkg tmp made st).0 ≡ none
      → d.connected ≡ true
      → (paths : List Text) → d.apk_paths pkg ≡ some paths
      → All (IsCollected (pull_from_client policy d pkg tmp made st).2) paths
        × ((pull_from_client policy d pkg tmp made st).1 ≡ ltb 1 (length paths))
  unfolding pull_from_client
  pull_from_client_done d made st h c paths e = elim (Bool-cases made) [
    | inr f ↦ absurd (ground arith)
    | inl t ↦
        let all = pull_all policy d (join_path tmp d.abi) paths st in
        let fine : all.0 ≡ none = ground arith in
        let same : (pull_from_client policy d pkg tmp made st).2 ≡ all.1 =
          unfold pull_from_client in ground arith in
        (rw same (pull_all_done policy d (join_path tmp d.abi) paths st fine), ground arith)
  ]

  IsCollected-Keeps :
      (a b : Pulls) (paths : List Text)
      → Keeps a b
      → All (IsCollected a) paths
      → All (IsCollected b) paths
  IsCollected-Keeps a b [] k h = tt
  IsCollected-Keeps a b (p ∷ ps) k ((f, l, s, e), h) =
      ((f, l, s, k f l e), IsCollected-Keeps a b ps k h)

  -- the flag that is handed on
  pull_clients_split :
      (ds : List Device) (st : Pulls) → (pull_clients host policy pkg tmp ds true st).1 ≡ true
  unfolding pull_clients
  pull_clients_split [] st = refl
  pull_clients_split (d ∷ ds) st =
      let r = pull_from_client policy d pkg tmp (host.emulator_dir_ok d.abi) st in
      elim (Bool-cases r.1) [
        | inl t ↦ ground (arith, pull_clients_split ds r.2)
        | inr f ↦ ground (arith, pull_clients_split ds r.2)
      ]

  pull_clients-next :
      (d : Device) (ds : List Device) (is_split : Bool) (st : Pulls)
      → (pull_clients host policy pkg tmp (d ∷ ds) is_split st).0 ≡ none
      → let r = pull_from_client policy d pkg tmp (host.emulator_dir_ok d.abi) st in
        (r.0 ≡ none)
        × (pull_clients host policy pkg tmp (d ∷ ds) is_split st
            ≡ pull_clients host policy pkg tmp ds (r.1 || is_split) r.2)
  unfolding pull_clients
  pull_clients-next d ds is_split st h =
      let r = pull_from_client policy d pkg tmp (host.emulator_dir_ok d.abi) st in
      elim (Option-cases r.0) [ inr (e, f) ↦ absurd (ground arith) | inl f ↦ (f, ground arith) ]

  -- without an error every path that a connected device lists is collected
  pub pull_clients_done :
      (ds : List Device) (is_split : Bool) (st : Pulls)
      → (pull_clients host policy pkg tmp ds is_split st).0 ≡ none
      → AllListed (All (IsCollected (pull_clients host policy pkg tmp ds is_split st).2)) pkg ds
  pull_clients_done [] is_split st h = tt
  pull_clients_done (d ∷ ds) is_split st h =
      let made = host.emulator_dir_ok d.abi in
      let r = pull_from_client policy d pkg tmp made st in
      let rest = pull_clients host policy pkg tmp ds (r.1 || is_split) r.2 in
      let (fine, same) = pull_clients-next d ds is_split st h in
      subst (λ x. AllListed (All (IsCollected x)) pkg (d ∷ ds)) (ap (λ x. x.2) (sym same))
        (
          λ c paths e.
              IsCollected-Keeps r.2 rest.2 paths (pull_clients-Grows ds (r.1 || is_split) r.2).1
                (pull_from_client_done d made st fine c paths e).0,
          pull_clients_done ds (r.1 || is_split) r.2 (ap (λ x. x.0) (sym same) ∙ h),
        )

  -- and if the app is no split one, none lists more than one
  pub pull_clients_single :
      (ds : List Device) (is_split : Bool) (st : Pulls)
      → (pull_clients host policy pkg tmp ds is_split st).0 ≡ none
      → (pull_clients host policy pkg tmp ds is_split st).1 ≡ false
      → AllListed (λ paths. length paths ≤ 1) pkg ds
  pull_clients_single [] is_split st h k = tt
  pull_clients_single (d ∷ ds) is_split st h k =
      let made = host.emulator_dir_ok d.abi in
      let r = pull_from_client policy d pkg tmp made st in
      let (fine, same) = pull_clients-next d ds is_split st h in
      let rest = pull_clients host policy pkg tmp ds (r.1 || is_split) r.2 in
      let off : rest.1 ≡ false = ap (λ x. x.1) (sym same) ∙ k in
      let one : r.1 ≡ false = elim (Bool-cases r.1) [
        | inr f ↦ f
        | inl t ↦
            let on : (r.1 || is_split) ≡ true = ground arith in
            let split : rest.1 ≡ true = rw on (pull_clients_split ds r.2) in absurd (ground arith)
      ] in
      (
        λ c paths e. let flag = (pull_from_client_done d made st fine c paths e).1 in ground arith,
        pull_clients_single ds (r.1 || is_split) r.2 (ap (λ x. x.0) (sym same) ∙ h) off,
      )
