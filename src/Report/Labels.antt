-- ===== src/Report/Labels.antt =====
-- internal/report/report.go: the words of the report. A literal is its UTF-8 bytes.
use xdp_invisible_armor.Common.{
  ℕ, suc, ◌+◌, ◌*◌, ◌/◌, ◌%◌, Bool, ◌==◌, ltb, if◌then◌else◌, List, [], ◌∷◌, ◌++◌, Option, none,
  some, Text, codes, format, join, is_empty, text_eq, ℤ, pos, negsuc, find,
}
use xdp_invisible_armor.Model.{
  BanState, requested, active, rejected, expired, safety_blocked, revoked, ScopedBan, User,
}

-- The bytes of code points below 2 ^ 16.
abbrev pub utf8 : Text → Text
utf8 [] = []
utf8 (c ∷ s) =
    let rest = utf8 s in
    if ltb c 0x80
    then c ∷ rest
    else if ltb c 0x800
    then (0xc0 + c / 64) ∷ (0x80 + c % 64) ∷ rest
    else (0xe0 + c / 4096) ∷ (0x80 + c / 64 % 64) ∷ (0x80 + c % 64) ∷ rest

pub data Kind : Type 0 where
  ban scoped_ban : Kind

unfoldable pub kind_label : Kind → Text
kind_label scoped_ban = utf8 (codes "范围封禁")
kind_label ban = utf8 (codes "单点封禁")

unfoldable pub state_label : BanState → Text
state_label requested = utf8 (codes "待审批")
state_label active = utf8 (codes "生效中")
state_label rejected = utf8 (codes "已驳回")
state_label expired = utf8 (codes "已过期")
state_label revoked = utf8 (codes "已撤销")
state_label safety_blocked = utf8 (codes "保护集否决")

unfoldable pub bool_label : Bool → Text
bool_label b = if b then utf8 (codes "是") else utf8 (codes "否")

unfoldable pub dash : Text → Text
dash s = if is_empty s then codes "-" else s

unfoldable pub prefix_label : ℕ → Text
prefix_label n = if n == 0 then codes "-" else format n

-- `loadUsers` makes a map of the ids, which are a key of the table.
unfoldable pub user_name : List User → Option ℕ → Text
user_name us none = []
user_name us (some id) = elim (find (λ (u : User). u.id == id) us) [
  | some u ↦ u.username
  | none ↦ codes "user#" ++ format id
]

unfoldable pub approval_way : Text → Text
unfolding text_eq
approval_way policy = if text_eq policy (codes "email_link") then utf8 (codes "邮件链接") else policy

unfoldable pub scope_label : ScopedBan → Text
unfolding join
scope_label b =
    let asn = if b.asn == 0 then [] else (codes "AS" ++ format b.asn) ∷ [] in
    join (codes " + ") (if is_empty b.country then asn else b.country ∷ asn)

-- "%.0f" of n / d: halves go to the even neighbour.
unfoldable pub rounded : ℕ → ℕ → ℕ
rounded n d =
    let q = n / d in
    let r = n % d * 2 in
    if ltb r d then q else if ltb d r then suc q else if q % 2 == 0 then q else suc q

-- A duration of a whole number of seconds, not so long that its nanoseconds overflow.
unfoldable pub format_ttl : Option ℤ → Text
unfolding rounded
format_ttl none = utf8 (codes "永久")
format_ttl (some (negsuc n)) = codes "-" ++ (format (rounded (suc n) 60) ++ utf8 (codes " 分钟"))
format_ttl (some (pos secs)) =
    if secs == 0
    then utf8 (codes "永久")
    else if ltb secs 3600
    then format (rounded secs 60) ++ utf8 (codes " 分钟")
    else if ltb secs 86400
    then format (rounded secs 3600) ++ utf8 (codes " 小时")
    else format (rounded secs 86400) ++ utf8 (codes " 天")
