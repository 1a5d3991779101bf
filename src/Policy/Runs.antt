-- ===== src/Policy/Runs.antt =====
-- Permissions of named roles.
use xdp_invisible_armor.Common.{◌≡◌, refl, text_eq, codes, length}
use xdp_invisible_armor.Policy.{allow, nav_sections}

approver_pages : length (nav_sections (codes "approver")) ≡ 6
unfolding nav_sections allow text_eq
approver_pages = refl
