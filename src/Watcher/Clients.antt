-- ===== src/Watcher/Clients.antt =====
-- The emulators after the configuration has changed.
use play_apk_distributor.Prelude.{
  ◌≡◌, refl, ap, ◌∙◌, List, [], ◌∷◌, Option, none, some, map, arith, Bool-cases, Option-cases, inl,
  inr, if◌then◌else◌,
}
use play_apk_distributor.Prelude.Int.{ℤ}
use play_apk_distributor.Text.{Text, text_eq, or_else}
use play_apk_distributor.Text.Laws.{text_eq_iff}
use play_apk_distributor.NameMap.{lookup, insert}
use play_apk_distributor.NameMap.Laws.{lookup-insert}
use play_apk_distributor.Config.{Snapshot}
use play_apk_distributor.Config.Validate.{Emulator}
use play_apk_distributor.Adb.Client.{serial_of}
use play_apk_distributor.Device.{Device}
use play_apk_distributor.Watcher.{by_serial, new_client, next_clients, sync_clients}

-- the last client with the serial `s`
pub last_with : Text → List Device → Option Device
last_with s [] = none
last_with s (c ∷ cs) = elim (last_with s cs) [
  | some d ↦ some d
  | none ↦ if text_eq s c.serial then some c else none
]

lookup-by_serial :
    (s : Text) (cs : List Device) (m : List (Text × Device))
    → lookup s (by_serial cs m) ≡ (elim (last_with s cs) [ some d ↦ some d | none ↦ lookup s m ])
unfolding by_serial last_with
lookup-by_serial s [] m = refl
lookup-by_serial s (c ∷ cs) m = elim (Option-cases (last_with s cs)) [
  | inl e ↦
      ground (arith, lookup-by_serial s cs (insert c.serial c m), lookup-insert c.serial s c m)
  | inr (d, e) ↦ ground (arith, lookup-by_serial s cs (insert c.serial c m))
]

last_with-serial :
    (s : Text) (cs : List Device) (d : Device) → last_with s cs ≡ some d → d.serial ≡ s
unfolding last_with
last_with-serial s [] d h = cc
last_with-serial s (c ∷ cs) d h = elim (Option-cases (last_with s cs)) [
  | inr (x, e) ↦ last_with-serial s cs d (ground arith)
  | inl e ↦ elim (Bool-cases (text_eq s c.serial)) [
    | inr other ↦ absurd (ground arith)
    | inl same ↦ ground (arith, text_eq_iff s c.serial)
  ]
]

-- the client that an emulator of the configuration is to have
pub client_for : (Text → Device) → Text → List Device → Emulator → Device
client_for world adb_host clients e =
    or_else (last_with (serial_of adb_host e.port) clients) (new_client world adb_host e)

next-client_for :
    (world : Text → Device) (adb_host : Text) (clients : List Device) (es : List Emulator)
    → next_clients world adb_host (by_serial clients []) es
      ≡ map (client_for world adb_host clients) es
unfolding next_clients client_for lookup
next-client_for world adb_host clients [] = refl
next-client_for world adb_host clients (e ∷ es) =
    elim (Option-cases (last_with (serial_of adb_host e.port) clients)) [
      | inl n ↦ ground (
        arith,
        lookup-by_serial (serial_of adb_host e.port) clients [],
        next-client_for world adb_host clients es,
      )
      | inr (d, n) ↦ ground (
        arith,
        lookup-by_serial (serial_of adb_host e.port) clients [],
        next-client_for world adb_host clients es,
      )
    ]

client_for-serial :
    (world : Text → Device) (adb_host : Text) (clients : List Device) (e : Emulator)
    → (client_for world adb_host clients e).serial ≡ serial_of adb_host e.port
unfolding client_for new_client
client_for-serial world adb_host clients e =
    elim (Option-cases (last_with (serial_of adb_host e.port) clients)) [
      | inl n ↦ ground arith
      | inr (d, n) ↦ ground (arith, last_with-serial (serial_of adb_host e.port) clients d n)
    ]

serials_of :
    (world : Text → Device) (adb_host : Text) (clients : List Device) (es : List Emulator)
    → map (λ (d : Device). d.serial) (map (client_for world adb_host clients) es)
      ≡ map (λ (e : Emulator). serial_of adb_host e.port) es
serials_of world adb_host clients [] = refl
serials_of world adb_host clients (e ∷ es) =
    rw (client_for-serial world adb_host clients e) (rw (serials_of world adb_host clients es) refl)

-- After a change of the configuration there is one client for each emulator, in its order and
-- with its serial: the last of the clients that had that serial, if one had it, and a new one
-- otherwise.
pub sync_clients_lem :
    (world : Text → Device) (snap : Snapshot) (clients : List Device)
    → (sync_clients world snap clients
        ≡ map (client_for world snap.adb_host clients) snap.emulators)
      × (map (λ (d : Device). d.serial) (sync_clients world snap clients)
          ≡ map (λ (e : Emulator). serial_of snap.adb_host e.port) snap.emulators)
unfolding sync_clients
sync_clients_lem world snap clients = (
  next-client_for world snap.adb_host clients snap.emulators,
  rw (next-client_for world snap.adb_host clients snap.emulators)
      (serials_of world snap.adb_host clients snap.emulators),
)

-- A client that is kept keeps the ABI that it was made with, whatever the new configuration says of its
-- port.
pub kept_client_abi :
    (world : Text → Device) (snap : Snapshot) (c : Device) (abi : Text) (port : ℤ)
    → c.serial ≡ serial_of snap.adb_host port
    → snap.emulators ≡ record { port = port; abi = abi } ∷ []
    → sync_clients world snap (c ∷ []) ≡ c ∷ []
unfolding client_for last_with
kept_client_abi world snap c abi port same es =
    (sync_clients_lem world snap (c ∷ [])).0
    ∙ ap (map (client_for world snap.adb_host (c ∷ []))) es
    ∙ ap (λ d. d ∷ []) (ground (arith, text_eq_iff (serial_of snap.adb_host port) c.serial))
