-- ===== src/Tests/Samples.antt =====
-- JSON codecs, devices, hosts and configurations for the tests.
use play_apk_distributor.Prelude.{
  ℕ, zero, suc, ◌≡◌, refl, ap, sym, ◌∙◌, true, false, List, [], ◌∷◌, none, some,
}
use play_apk_distributor.Prelude.Int.{ℤ, pos, negsuc}
use play_apk_distributor.Text.{Text, codes}
use play_apk_distributor.Storage.{Codec, all_ok, Slot}
use play_apk_distributor.Packages.{Manager}
use play_apk_distributor.Packages.Invariant.{RoundTrips}
use play_apk_distributor.Store.{Table, Store}
use play_apk_distributor.Config.{Snapshot}
use play_apk_distributor.Config.Validate.{Raw}
use play_apk_distributor.Adb.Version.{VersionInfo}
use play_apk_distributor.Signing.{rejected}
use play_apk_distributor.Device.{Device, Pulled}
use play_apk_distributor.Extractor.Bundle.{BundleIo}
use play_apk_distributor.Extractor.Folder.{written}
use play_apk_distributor.Extractor.Publish.{PublishIo}
use play_apk_distributor.Extractor.Run.{Host, Job}
use play_apk_distributor.Watcher.{Turn}

-- each byte plus one, and a zero behind each name
pub encode_name : Text → Text → Text
encode_name [] rest = 0 ∷ rest
encode_name (c ∷ s) rest = suc c ∷ encode_name s rest

unfoldable pub encode : List Text → Text
unfolding encode_name
encode [] = []
encode (n ∷ ns) = encode_name n (encode ns)

pub push_first : ℕ → List Text → List Text
push_first c [] = (c ∷ []) ∷ []
push_first c (n ∷ ns) = (c ∷ n) ∷ ns

unfoldable pub decode : Text → List Text
unfolding push_first
decode [] = []
decode (zero ∷ s) = [] ∷ decode s
decode (suc c ∷ s) = push_first c (decode s)

decode-encode_name : (n rest : Text) → decode (encode_name n rest) ≡ n ∷ decode rest
unfolding decode encode_name
decode-encode_name [] rest = refl
decode-encode_name (c ∷ s) rest = rw (decode-encode_name s rest) refl

decode-encode : (ns : List Text) → decode (encode ns) ≡ ns
unfolding encode decode
decode-encode [] = refl
decode-encode (n ∷ ns) = rw (decode-encode_name n (encode ns)) (rw (decode-encode ns) refl)

abbrev pub names_codec : Codec (List Text)
names_codec = record { marshal = λ ns. some (encode ns); unmarshal = λ b. some (decode b) }

pub names_round : RoundTrips names_codec
names_round = record {
  back = λ ns b h e.
      ap (λ o. elim o [ none ↦ none | some c ↦ some (decode c) ]) (sym e)
      ∙ ap some (decode-encode ns);
}

-- one line of four texts for each entry
unfoldable pub to_texts : Table → List Text
to_texts [] = []
to_texts ((k, e) ∷ t) =
    k
    ∷ (elim e.version_code [ pos n ↦ 0 ∷ n ∷ [] | negsuc n ↦ 1 ∷ n ∷ [] ])
    ∷ e.version_name
    ∷ (e.updated_at ∷ [])
    ∷ to_texts t

pub to_int : Text → ℤ
to_int (zero ∷ n ∷ s) = pos n
to_int (suc z ∷ n ∷ s) = negsuc n
to_int s = pos 0

pub to_time : Text → ℕ
to_time [] = 0
to_time (n ∷ s) = n

unfoldable pub of_texts : List Text → Table
unfolding to_int to_time
of_texts (k ∷ c ∷ n ∷ u ∷ ts) =
    (k, record { version_code = to_int c; version_name = n; updated_at = to_time u }) ∷ of_texts ts
of_texts ts = []

abbrev pub table_codec : Codec Table
table_codec = record {
  marshal = λ t. some (encode (to_texts t));
  unmarshal = λ b. some (of_texts (decode b));
}

abbrev pub app : Text
app = codes "a.b"

abbrev pub no_file : Slot
no_file = record { main = none; tmp = none }

abbrev pub new_manager : Manager
new_manager = record { set = []; file = no_file; handlers = 1 ∷ []; calls = [] }

abbrev pub one_manager : Manager
one_manager = record { set = app ∷ []; file = no_file; handlers = []; calls = [] }

abbrev pub new_store : Store
new_store = record { table = []; file = no_file }

abbrev pub v7 : VersionInfo
v7 = record { code = pos 7; name = codes "v7" }

abbrev pub apk_file : Pulled
apk_file = record { size = some 10; signer_run = rejected }

abbrev pub phone : Device
phone = record {
  serial = codes "h:5555";
  abi = codes "x86";
  connected = false;
  reconnected = true;
  installed = λ _. some v7;
  apk_paths = λ _. some (codes "/d/base.apk" ∷ codes "/d/config.apk" ∷ []);
  pull_file = λ _. some apk_file;
}

abbrev pub tablet : Device
tablet = record {
  serial = codes "h:5556";
  abi = codes "arm";
  connected = true;
  reconnected = true;
  installed = λ _. some v7;
  apk_paths = λ _. some (codes "/d/base.apk" ∷ codes "/d/config.apk" ∷ []);
  pull_file = λ _. some apk_file;
}

abbrev pub two_devices : List Device
two_devices = phone ∷ tablet ∷ []

-- the phone has been reached again
abbrev pub reached : List Device
reached = record phone { connected = true } ∷ tablet ∷ []

abbrev pub good_io : BundleIo
good_io = record {
  picked = 0;
  source_opened = true;
  tmp_opened = true;
  copied = true;
  entry = λ _. record { created = true; opened = true; copied = true };
  marshalled = true;
  manifest_created = true;
  manifest_written = true;
  archive_closed = true;
  file_closed = true;
  renamed = true;
  removed = true;
}

abbrev pub good_publish : PublishIo
good_publish = record {
  opened = true;
  read = true;
  sum_write = written;
  marshalled = true;
  latest_write = written;
  renamed = true;
  removed = true;
  listed = true;
  pruned = λ _. true;
}

abbrev pub host : Host
host = record {
  pkg_dir_ok = true;
  tmp_base_ok = true;
  tmp_dir = some (codes "/t");
  emulator_dir_ok = λ _. true;
  signer = none;
  folder = [];
  bundle = good_io;
  publish = good_publish;
  sha = λ _. codes "00";
  now = 5;
  absolute = λ p. p;
}

abbrev pub live : Snapshot
live = record {
  adb_host = codes "h";
  poll_interval = pos 1000000000;
  output_dir = codes "/o";
  emulators = record { port = pos 5555; abi = codes "x86" } ∷ [];
  packages = app ∷ [];
  api_host = codes "127.0.0.1";
  api_port = pos 0;
  api_token = [];
  max_apk_size_mb = pos 1;
  expected_certs = [];
}

abbrev pub turn : Turn
turn = record {
  cancelled = false;
  clients = two_devices;
  pulling = reached;
  live = live;
  host = host;
  now = 5;
  io = all_ok;
}

abbrev pub job : Job
job = record {
  pkg = app;
  code = pos 7;
  name = codes "v7";
  output_dir = codes "/o";
  max_apk_size_mb = pos 1;
  expected_certs = [];
}

abbrev pub raw : Raw
raw = record {
  adb_host = codes "localhost";
  poll_interval = pos 60;
  output_dir = codes "/o";
  emulators = record { port = pos 5555; abi = codes "x86_64" } ∷ [];
  packages = app ∷ [];
  api_host = [];
  api_port = pos 0;
  api_token = [];
  max_apk_size_mb = pos 0;
  expected_certs = [];
}
