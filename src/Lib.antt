-- ===== src/Lib.antt =====
-- The verification library of play-apk-distributor, a service that polls Android emulators for the
-- versions of the tracked packages, pulls the APKs of a new version, and puts them in a directory.
--
-- The parts of the program and their modules:
--   main.go: Startup. What is opened before the watcher runs, and in which order; the warnings.
--   watcher/watcher.go: Watcher. `effective_packages`, `check_package`, `poll` and `sync_clients` are
--     the methods effectivePackages, checkPackage, poll and syncClients. The results of the goroutines
--     of checkPackage are a list in the order of the clients; Gather has the goroutines, each of which
--     writes at its index. It calls Device, Extractor.Run and Store.
--   extractor/extractor.go: Extractor, with a module for safeFilename (Filename), pullFromClient (Pull),
--     atomicCopy, writeSingleAPK and writeXAPK (Bundle), which names pruneOldVersions chooses (Prune),
--     writeChecksum, writeLatestJSON and the removals (Publish), and Extract (Run). The directory of the
--     package is a map from names to files (Folder), which each of these calls is given and returns.
--   extractor/signing.go: Signing. The regular expression for the fingerprint is a scan over the bytes.
--   adb/adb.go: Adb, with parseVersionInfo (Version), parsePMPaths (Paths), what Connect, IsConnected and
--     Reconnect make of an output (Client), and the commands that they and the other methods run, with
--     adb as a parameter (Commands). The interface Device is the record of Device: what each method would
--     return. `IsDeviceOf` says which clients a device stands for.
--   config/config.go: Config, with the validation (Validate), the fingerprints (Fingerprint) and what a
--     reload keeps (Reload). The configuration is a state with its handlers and the calls made of them.
--   packages/packages.go: Packages, a manager as a state with its set, its file, its handlers and the
--     calls made of them. PackageName is the regular expression of a package name. Contract is a list of
--     packages as a set without order, which Refinement compares with a manager. Watching has the
--     goroutine of Watch beside the requests: load reads the file before it takes the lock, and Lost
--     has what is lost by that.
--   store/store.go: Store. sink/sink.go: Sink. api/server.go: Api, where `serve` is ServeHTTP.
--   System: the running program as steps that change its state, ticks of Run in watcher/watcher.go, edits
--     of the configuration, runs of the handler that watcher.New registers, and requests, in any order,
--     from the state that main.go begins with (Begun). The reloads of packages.json are not among these
--     steps, but among those of Packages.Watching. A tick is one step, in which each check may have any
--     clients, since a handler may replace them between two checks.
--
-- Shared modules: Prelude (Boolean tests, lists, and integers of 64 bits), Text (strings as lists of
-- bytes, with the functions of Go's `strings`), Space (white space of UTF-8 text), Decimal (`Itoa` and
-- `Atoi`), NameSet and NameMap (Go's maps as lists, NameSet.Quotient without their order), Result
-- (errors) and Storage (a file that is replaced by a temporary file and a rename). Where `range` over a
-- map decides a result, in writeSingleAPK, the place where it begins is an argument. Tests has concrete
-- inputs.
--
-- Files, commands, the clock, and the JSON and YAML libraries are arguments: each operation is given
-- what the calls that it makes answer, failures included, and returns the new state. A JSON library is
-- a `Codec`, of which some theorems suppose that it reads back what it writes; Tests has one that does.
-- Mutexes make each method of a manager, a store and a configuration one step.
--
-- Loops are structural recursion, but for three with a fixed number of rounds: `read_file` is given 3,
-- `attempt` 5, and `take_hex` 64, the numbers of the source. `digits` is given the number to print plus
-- one, which is more than it has digits.
--
-- Not modelled: the texts of errors and logs, contexts within an extraction, the contents of APK files
-- and archives beyond which files they hold, SHA-256 (a parameter of an extraction), the removal of the
-- private temporary directory and what a pull that failed leaves in it, a store.json of null, whose
-- nil map panics at the next write, the ticker, sleeps other than those of Reconnect, the goroutines that
-- call the handlers of the package list, and the HTTP library beyond the routes, the token and the body.
pub mod Prelude
pub mod Text
pub mod NameSet
pub mod PackageName
pub mod Result
pub mod Storage
pub mod Packages
pub mod Space
pub mod NameMap
pub mod Store
pub mod Sink
pub mod Config
pub mod Decimal
pub mod Adb
pub mod Signing
pub mod Device
pub mod Extractor
pub mod Watcher
pub mod Api
pub mod Startup
pub mod System
pub mod Tests
