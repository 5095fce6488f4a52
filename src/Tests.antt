-- ===== src/Tests.antt =====
-- Concrete inputs: samples, and each theorem about the code at one of them.
mod Samples
mod Devices
mod Watcher
mod Progress
mod Extractor
mod Api
mod Packages
mod Config
mod Adb
mod Startup
mod System
