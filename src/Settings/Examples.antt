-- ===== src/Settings/Examples.antt =====
-- Tests and concrete cases.
use briska_blast.Common.{◌≡◌, refl}
use briska_blast.Settings.Loot.{total_loop, subscribed_total, default_settings}

default_total : subscribed_total default_settings ≡ 50
unfolding subscribed_total total_loop
default_total = refl
