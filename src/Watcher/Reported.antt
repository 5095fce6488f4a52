-- ===== src/Watcher/Reported.antt =====
-- Where a recorded version comes from: the output of `dumpsys` on an emulator.
use play_apk_distributor.Prelude.{
  ℕ, ◌≡◌, true, ◌||◌, List, [], ◌∷◌, some, arith, Option-cases, inl, inr, All, Any,
}
use mathlib.Core.Path.{subst}
use play_apk_distributor.Text.{Text, codes}
use play_apk_distributor.Storage.{Codec}
use play_apk_distributor.Store.{Table, Store, get_last_known}
use play_apk_distributor.Device.{Device}
use play_apk_distributor.Adb.Version.{VersionInfo, info, parse_version_info}
use play_apk_distributor.Adb.Commands.{Adb, Client, shell_args}
use play_apk_distributor.Adb.Commands.Laws.{
  IsDeviceOf, IsBoundedVersion, get_installed_version_sound,
}
use play_apk_distributor.Watcher.{query, answers, Turn, complete, check_package}
use play_apk_distributor.Watcher.Complete.{check_package-IsComplete}
use play_apk_distributor.Watcher.Progress.{entry_of}

-- the device stands for a client of adb/adb.go, whose commands `adb` answers in this check
pub record IsClientDevice (adb : Adb) (d : Device) : Type 0 where
  pub retries : ℕ → Adb
  pub client : Client
  pub stands : IsDeviceOf adb retries client d

-- The emulator was reached, and `adb -s <its serial> shell dumpsys package <pkg>` printed a listing
-- that gives this version, which is in bounds.
pub record IsPrinted (adb : Adb) (pkg : Text) (v : VersionInfo) (d : Device) : Type 0 where
  pub reached : (d.connected || d.reconnected) ≡ true
  pub out : Text
  pub ran :
      adb (codes "-s" ∷ d.serial ∷ codes "shell" ∷ codes "dumpsys" ∷ codes "package" ∷ pkg ∷ [])
      ≡ some out
  pub read : parse_version_info pkg out ≡ info v
  pub bounded : IsBoundedVersion v

module _ (adb : Adb) (pkg : Text) where
  query-IsPrinted :
      (d : Device) (v : VersionInfo)
      → IsClientDevice adb d
      → query pkg d ≡ some v
      → IsPrinted adb pkg v d
  unfolding query shell_args
  query-IsPrinted d v c h =
      let installed : d.installed pkg ≡ some v = ground arith in
      let (out, ran, read, bounded) =
        get_installed_version_sound adb c.client pkg v ((c.stands.answered pkg v).0 installed) in
      record {
        reached = ground arith;
        out = out;
        ran = rw c.stands.serial ran;
        read = read;
        bounded = bounded;
      }

  -- each answer was printed on one of the devices
  answers-IsPrinted :
      (ds : List Device)
      → All (IsClientDevice adb) ds
      → All (λ v. Any (IsPrinted adb pkg v) ds) (answers pkg ds)
  unfolding answers
  answers-IsPrinted [] h = tt
  answers-IsPrinted (d ∷ ds) (c, cs) =
      let rest = later d ds (answers pkg ds) (answers-IsPrinted ds cs) in
      elim (Option-cases (query pkg d)) [
        | inl e ↦
            let same : answers pkg ds ≡ answers pkg (d ∷ ds) = ground arith in
            subst (All (λ v. Any (IsPrinted adb pkg v) (d ∷ ds))) same rest
        | inr (v, e) ↦
            let same : v ∷ answers pkg ds ≡ answers pkg (d ∷ ds) = ground arith in
            subst (All (λ v. Any (IsPrinted adb pkg v) (d ∷ ds))) same
              (inl (query-IsPrinted d v c e), rest)
      ]
    where
      later :
          (d : Device) (ds : List Device) (vs : List VersionInfo)
          → All (λ v. Any (IsPrinted adb pkg v) ds) vs
          → All (λ v. Any (IsPrinted adb pkg v) (d ∷ ds)) vs
      later d ds [] h = tt
      later d ds (v ∷ vs) (p, h) = (inr p, later d ds vs h)

  first-IsPrinted :
      (ds : List Device) (vs : List VersionInfo) (base : VersionInfo) (others : List VersionInfo)
      → All (λ v. Any (IsPrinted adb pkg v) ds) vs
      → vs ≡ base ∷ others
      → Any (IsPrinted adb pkg base) ds
  first-IsPrinted ds vs base others h e = (subst (All (λ v. Any (IsPrinted adb pkg v) ds)) e h).0

module _ (codec : Codec Table) where
  -- If the devices of a check stand for clients of adb, none of whose listings makes the parser
  -- panic, then a check whose outcome is `complete` leaves in the store a version that one of
  -- these devices printed: it was connected or reconnected, and `adb -s` with its serial and
  -- `shell dumpsys package` with the package gave an output that is read as this version, with a
  -- code other than 0 that fits an `int` and a name of at most 128 bytes.
  pub check_package-IsPrinted :
      (adb : Adb) (turn : Turn) (pkg output_dir : Text) (st : Store)
      → All (IsClientDevice adb) turn.clients
      → (check_package codec turn pkg output_dir st).outcome ≡ complete
      → (v : VersionInfo) × Any (IsPrinted adb pkg v) turn.clients
        × (get_last_known (check_package codec turn pkg output_dir st).store pkg
            ≡ some (entry_of turn v))
  check_package-IsPrinted adb turn pkg output_dir st cs h =
      let c = check_package-IsComplete codec turn pkg output_dir st h in
      (
        c.base,
        first-IsPrinted adb pkg turn.clients (answers pkg turn.clients) c.base c.others
            (answers-IsPrinted adb pkg turn.clients cs) c.answered,
        c.known,
      )
