-- ===== src/Requests/Creation/Created.antt =====
-- What a new request changes, and who gets the link.
use xdp_invisible_armor.Common.{◌≡◌, List}
use xdp_invisible_armor.Requests.{Site}

-- The requests, the dispatches and the ladders are as before.
abbrev pub Leaves : Site → Site → Type 0
Leaves s t =
    (t.db.requests ≡ s.db.requests) × (t.db.dispatches ≡ s.db.dispatches) × (t.ladders ≡ s.ladders)
