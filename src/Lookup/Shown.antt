-- ===== src/Lookup/Shown.antt =====
-- Which scoped bans the lookup of an address shows.
use xdp_invisible_armor.Common.{ℕ, Bool, not, ◌&&◌, any}
use xdp_invisible_armor.Model.{ScopedBan}
use xdp_invisible_armor.PrefixDb.Index.{Db, Selector}
use xdp_invisible_armor.PrefixDb.Resolve.Candidates.{matches, is_blank}
use xdp_invisible_armor.PrefixDb.Resolve.Exact.{in_entry}

abbrev pub selector_of : ScopedBan → Selector
selector_of b = record { country = b.country; asn = b.asn }

-- Some entry of the table that the ban's selector matches holds the address.
abbrev pub reaches : Db → ℕ → ScopedBan → Bool
reaches db x b =
    not (is_blank (selector_of b))
    && any (λ e. matches (selector_of b) e && in_entry x e) db.entries
