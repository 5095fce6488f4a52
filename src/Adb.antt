-- ===== src/Adb.antt =====
-- adb/adb.go: what the client makes of the output of `adb`, which is an argument, `none` where the
-- command failed, and (Commands) the commands that it runs, with `adb` as a parameter.
pub mod Version
pub mod Paths
pub mod Client
pub mod Commands
