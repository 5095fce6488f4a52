-- ===== src/Extractor/Pull/Succeeds.antt =====
-- When a pull has no error.
use play_apk_distributor.Prelude.{
  ◌⊎◌, ◌≡◌, refl, inl, inr, true, false, List, [], ◌∷◌, none, some, arith, All,
}
use play_apk_distributor.Text.{Text}
use play_apk_distributor.NameMap.{lookup}
use play_apk_distributor.Signing.{join_path}
use play_apk_distributor.Device.{Device, Pulled}
use play_apk_distributor.Extractor.Filename.{named, safe_filename}
use play_apk_distributor.Extractor.Pull.{
  Pulls, Policy, exceeds, check_cert, accept_file, pull_named, pull_one_apk, pull_all,
  pull_from_client,
}
use play_apk_distributor.Extractor.Pull.Complete.{pull_all_done}

-- the file at this path has a safe name, can be pulled, and passes the checks
pub record Passes (policy : Policy) (d : Device) (path : Text) : Type 0 where
  pub filename : Text
  pub safe_name : safe_filename path ≡ named filename
  pub pulled : Pulled
  pub from_device : d.pull_file path ≡ some pulled
  pub size : exceeds pulled.size policy.max_bytes ≡ false
  pub signature : check_cert policy pulled ≡ none

-- the device is there and gives all files of the package
pub record Serves (policy : Policy) (pkg : Text) (d : Device) : Type 0 where
  pub connected : d.connected ≡ true
  pub first : Text
  pub more : List Text
  pub paths : d.apk_paths pkg ≡ some (first ∷ more)
  pub each : All (Passes policy d) (first ∷ more)

-- it does, or is passed over
abbrev pub IsReady : Policy → Text → Device → Type 0
IsReady policy pkg d = (d.connected ≡ false) ⊎ (d.apk_paths pkg ≡ none) ⊎ Serves policy pkg d

abbrev pub SomeServes : Policy → Text → List Device → Type 0
SomeServes policy pkg [] = ⊥
SomeServes policy pkg (d ∷ ds) = Serves policy pkg d ⊎ SomeServes policy pkg ds

pull_one_apk_ok :
    (policy : Policy) (d : Device) (path dir : Text) (st : Pulls)
    → Passes policy d path
    → (pull_one_apk policy d path dir st).0 ≡ none
unfolding pull_one_apk pull_named accept_file
pull_one_apk_ok policy d path dir st h =
    ground (arith, h.safe_name, h.from_device, h.size, h.signature)

pull_all_ok :
    (policy : Policy) (d : Device) (dir : Text) (paths : List Text) (st : Pulls)
    → All (Passes policy d) paths
    → (pull_all policy d dir paths st).0 ≡ none
unfolding pull_all
pull_all_ok policy d dir [] st h = refl
pull_all_ok policy d dir (p ∷ ps) st (h, hs) = ground (
  arith,
  pull_one_apk_ok policy d p dir st h,
  pull_all_ok policy d dir ps (pull_one_apk policy d p dir st).1 hs,
)

pub pull_from_client_ok :
    (policy : Policy) (d : Device) (pkg tmp_dir : Text) (st : Pulls)
    → IsReady policy pkg d
    → (pull_from_client policy d pkg tmp_dir true st).0 ≡ none
unfolding pull_from_client
pull_from_client_ok policy d pkg tmp_dir st (inl f) = ground arith
pull_from_client_ok policy d pkg tmp_dir st (inr (inl f)) = ground arith
pull_from_client_ok policy d pkg tmp_dir st (inr (inr s)) = ground (
  arith,
  s.connected,
  s.paths,
  pull_all_ok policy d (join_path tmp_dir d.abi) (s.first ∷ s.more) st s.each,
)

-- a device that serves leaves something collected
pub pull_from_client-collects :
    (policy : Policy) (d : Device) (pkg tmp_dir : Text) (st : Pulls)
    → Serves policy pkg d
    → (name : Text) × (local : Text) × (lookup name
          (pull_from_client policy d pkg tmp_dir true st).2.collected
        ≡ some local)
unfolding pull_from_client
pull_from_client-collects policy d pkg tmp_dir st s =
    let dir = join_path tmp_dir d.abi in
    let ok = pull_all_ok policy d dir (s.first ∷ s.more) st s.each in
    let ((name, local, safe, found), more) = pull_all_done policy d dir (s.first ∷ s.more) st ok in
    (name, local, ground (arith, s.connected, s.paths, ok, found))
