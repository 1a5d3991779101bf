-- ===== src/Scoped/Forms.antt =====
-- internal/web/scoped.go, parseHostTarget and parseSelector: reading the fields of the form.
use xdp_invisible_armor.Common.{
  ℕ, ◌^◌, ◌-◌, ◌&&◌, ◌==◌, if◌then◌else◌, Option, none, some, Text, codes, is_empty, Result, ok,
  err, parse_uint, trim_space, trim_prefix, to_upper, has_byte,
}
use xdp_invisible_armor.Netip.{Addr, v4, v6, Prefix, has_zone, to4, parse_addr, parse_cidr, v4_text}
use xdp_invisible_armor.PrefixDb.{Selector}

pub data FormError : Type 0 where
  no_target bad_target not_a_host not_v4 bad_asn no_selector : FormError

-- The part after the prefix was taken off.
unfoldable pub host_of : Text → Result FormError Text
host_of s = elim (parse_addr s) [
  | none ↦ err bad_target
  | some a ↦
      if has_zone a
      then err bad_target
      else elim (to4 a) [ none ↦ err not_v4 | some v ↦ ok (v4_text v) ]
]

-- `ip.String()` is an IPv4 text, since the mask has 32 bits.
unfoldable pub single_host : Addr → Prefix → Result FormError Text
unfolding host_of
single_host (v4 a) net = if net.bits == 32 then host_of (v4_text a) else err not_a_host
single_host (v6 a zone) net = err not_a_host

unfoldable pub parse_host_target : Text → Result FormError Text
unfolding host_of single_host trim_space
parse_host_target raw =
    let s = trim_space raw in
    if is_empty s
    then err no_target
    else if has_byte b'/' s
    then elim (parse_cidr s) [ none ↦ err bad_target | some (a, net) ↦ single_host a net ]
    else host_of s

-- The fields of the form, and those of the query that stand in for the ones left empty.
pub record SelectorForm : Type 0 where
  pub country : Text
  pub query_country : Text
  pub asn : Text
  pub query_asn : Text

abbrev or_else : Text → Text → Text
or_else s t = if is_empty s then t else s

unfoldable pub parse_asn : Text → Option ℕ
parse_asn raw = parse_uint (2 ^ 32 - 1) (trim_prefix (trim_prefix raw (codes "AS")) (codes "as"))

abbrev selecting : Text → ℕ → Result FormError Selector
selecting country asn =
    if is_empty country && asn == 0
    then err no_selector
    else ok (record { country = country; asn = asn })

unfoldable pub parse_selector : SelectorForm → Result FormError Selector
unfolding parse_asn trim_space to_upper
parse_selector f =
    let country =
      or_else (to_upper (trim_space f.country)) (to_upper (trim_space f.query_country)) in
    let raw = or_else (trim_space f.asn) (trim_space f.query_asn) in
    if is_empty raw
    then selecting country 0
    else elim (parse_asn raw) [ none ↦ err bad_asn | some n ↦ selecting country n ]
