-- ===== src/Packages/Watching/Lost.antt =====
-- What a reload loses that has read packages.json before the requests that come while it waits.
use play_apk_distributor.Text.{Text}
