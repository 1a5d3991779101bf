-- ===== src/Scoped/Vetoed.antt =====
-- The guard is asked again at the dispatch, and its veto comes after the reservation.
use xdp_invisible_armor.PrefixDb
