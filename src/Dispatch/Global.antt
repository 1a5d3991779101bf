-- ===== src/Dispatch/Global.antt =====
-- The dispatches of a ban against everyone: one for each prefix.
use xdp_invisible_armor.Common.{List, map, Text}
use xdp_invisible_armor.Model.{Dispatch}
use xdp_invisible_armor.Dispatch.{ban_id}

abbrev pub ids : List Dispatch → List Text
ids ds = map (λ (d : Dispatch). d.ban_id) ds
