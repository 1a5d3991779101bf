-- ===== src/PrefixDb/Overrides/Bounds.antt =====
-- The rules that are read cover ranges of IPv4 addresses.
use xdp_invisible_armor.Common.{
  ℕ, suc, ◌+◌, ◌-◌, ◌*◌, ◌^◌, ◌≤◌, ◌<◌, ◌≡◌, refl, sym, ap, ◌∙◌, arith, List, [], ◌∷◌, ◌++◌, All,
  All-append, some, some_inj, and_then-some, Result, ok, err, ok-injective, Text, trim_space, inl,
  inr, Bool-cases, Option-cases, Result-cases, pow_pos, pow_split, clear-eq-mul, has_byte, cut,
  parse_uint, fields, replace_byte,
}
use mathlib.Core.Path.{subst}
use xdp_invisible_armor.Netip.{
  Addr, v4, v6, Prefix, parse_cidr, parse_addr, parse_ip_to4, clear_low, to4, has_zone, network,
}
use xdp_invisible_armor.Netip.Bounds.{parse_addr-v4_lt, parse_uint-le}
use xdp_invisible_armor.PrefixDb.Resolve.Exact.{IsEntry}
use xdp_invisible_armor.PrefixDb.Overrides.{
  Override, bad_line, network_range, override_of, uncommented, range_of, parse_override_line,
  is_rule, read_rules, as_entry,
}

pub err≢ok {ℓ κ} :
    {E : Type ℓ} {A : Type κ} {x : E} {y : A} → ◌≡◌ {A = Result E A} (err x) (ok y) → ⊥
err≢ok e = cc

-- A block of the 32-bit addresses ends within them.
block_end : (k x : ℕ) → k ≤ 32 → x < 2 ^ 32 → clear_low k x + 2 ^ k ≤ 2 ^ 32
block_end k x h lt = grind (arith, clear-eq-mul (2 ^ k) x, whole, pow_pos k)
  where
    whole : 2 ^ 32 ≡ 2 ^ (32 - k) * 2 ^ k
    whole = ap (λ (t : ℕ). 2 ^ t) {x = 32} {y = 32 - k + k} (omega arith) ∙ pow_split (32 - k) k

network-ends :
    (back : Text) (a b : Addr) (net : Prefix) (start : ℕ)
    → ((x : ℕ) → a ≡ v4 x → x < 2 ^ 32)
    → network back a ≡ some (b, net)
    → net.addr ≡ v4 start
    → start + 2 ^ (32 - net.bits) ≤ 2 ^ 32
unfolding network
network-ends back (v6 a zone) b net start h e f = elim (Bool-cases (has_zone (v6 a zone))) [
  | inl z ↦ absurd (ground (arith, z))
  | inr z ↦ elim (Option-cases (parse_uint 128 back)) [
    | inl n ↦ absurd (ground (arith, z, n))
    | inr (k, n) ↦ absurd (ground (arith, z, n))
  ]
]
network-ends back (v4 a) b net start h e f = elim (Option-cases (parse_uint 32 back)) [
  | inl n ↦ absurd (ground (arith, n))
  | inr (k, n) ↦ ground (arith, n, block_end (32 - k) a, h a refl, parse_uint-le 32 back k n)
]

parse_cidr-ends :
    (s : Text) (a : Addr) (net : Prefix) (start : ℕ)
    → parse_cidr s ≡ some (a, net)
    → net.addr ≡ v4 start
    → start + 2 ^ (32 - net.bits) ≤ 2 ^ 32
unfolding parse_cidr
parse_cidr-ends s a net start e f =
    let (parts, p, g) = and_then-some (cut b'/' s) _ e in
    let (b, q, r) = and_then-some (parse_addr parts.0) (network parts.1) g in
    network-ends parts.1 b a net start (λ x t. parse_addr-v4_lt parts.0 x (q ∙ ap some t)) r f

to4-lt : (a : Addr) (x : ℕ) → ((y : ℕ) → a ≡ v4 y → y < 2 ^ 32) → to4 a ≡ some x → x < 2 ^ 32
to4-lt (v4 y) x h e = subst (λ n. n < 2 ^ 32) (some_inj e) (h y refl)
to4-lt (v6 y []) x h e = ground arith
to4-lt (v6 y (c ∷ zone)) x h e = absurd (ground arith)

pub parse_ip_to4-lt : (s : Text) (x : ℕ) → parse_ip_to4 s ≡ some x → x < 2 ^ 32
unfolding parse_ip_to4
parse_ip_to4-lt s x e =
    let (a, p, q) = and_then-some (parse_addr s) to4 e in
    to4-lt a x (λ y t. parse_addr-v4_lt s y (p ∙ ap some t)) q

cidr-ends :
    (a : Addr) (bits s l : ℕ) (given rest : List Text)
    → ((x : ℕ) → a ≡ v4 x → x + 2 ^ (32 - bits) ≤ 2 ^ 32)
    → network_range (a, record { addr = a; bits = bits }) given ≡ ok (s, l, rest)
    → (s ≤ l) × (l < 2 ^ 32)
cidr-ends (v6 y zone) bits s l given rest h e = absurd (ground arith)
cidr-ends (v4 x) bits s l given rest h e = ground (arith, h x refl, pow_pos (32 - bits))

range_of-ends :
    (fs : List Text) (s l : ℕ) (rest : List Text)
    → range_of fs ≡ ok (s, l, rest)
    → (s ≤ l) × (l < 2 ^ 32)
unfolding range_of
range_of-ends [] s l rest e = absurd (ground arith)
range_of-ends (f ∷ []) s l rest e = absurd (ground arith)
range_of-ends (f ∷ g ∷ more) s l rest e = elim (Bool-cases (has_byte b'/' f)) [
  | inl slash ↦ elim (Option-cases (parse_cidr f)) [
    | inl n ↦ absurd (ground (arith, slash, n))
    | inr ((a, net), n) ↦
        cidr-ends net.addr net.bits s l (g ∷ more) rest (λ x q. parse_cidr-ends f a net x n q)
          (sym (rw (range_of, slash, n) refl) ∙ e)
  ]
  | inr plain ↦ elim (Option-cases (parse_ip_to4 f)) [
    | inl n ↦ absurd (ground (arith, plain, n))
    | inr (x, p) ↦ elim (Option-cases (parse_ip_to4 g)) [
      | inl n ↦ absurd (ground (arith, plain, p, n))
      | inr (y, q) ↦ ground (arith, plain, p, q, parse_ip_to4-lt g y q)
    ]
  ]
]

-- A rule that is read covers a range of IPv4 addresses.
pub parse_override_line-IsEntry :
    (line : Text) (o : Override) → parse_override_line line ≡ ok o → IsEntry (as_entry o)
unfolding parse_override_line
parse_override_line-IsEntry line o e =
    elim (Result-cases (range_of (fields (replace_byte b'\t' b' ' (uncommented line))))) [
      | inr (x, n) ↦ absurd (err≢ok {x = x} (sym (rw (parse_override_line, n) refl) ∙ e))
      | inl ((s, l, rest), n) ↦
          subst (λ r. IsEntry (as_entry r)) {x = override_of (s, l, rest)} {y = o}
            (ok-injective (sym (rw (parse_override_line, n) refl) ∙ e))
            (range_of-ends (fields (replace_byte b'\t' b' ' (uncommented line))) s l rest n)
    ]

-- So do all rules of a file.
pub read_rules-IsEntry :
    (n : ℕ) (ls : List Text) (given ovs : List Override)
    → All (λ (o : Override). IsEntry (as_entry o)) given
    → read_rules n ls given ≡ ok ovs
    → All (λ (o : Override). IsEntry (as_entry o)) ovs
unfolding read_rules
read_rules-IsEntry n [] given ovs h e =
    subst (All (λ (o : Override). IsEntry (as_entry o))) (ok-injective e) h
read_rules-IsEntry n (l ∷ ls) given ovs h e = elim (Bool-cases (is_rule (trim_space l))) [
  | inr r ↦ read_rules-IsEntry (suc n) ls given ovs h (sym (rw r refl) ∙ e)
  | inl r ↦ elim (Result-cases (parse_override_line (trim_space l))) [
    | inr (x, p) ↦ absurd (err≢ok {x = bad_line n x} (sym (rw (read_rules, r, p) refl) ∙ e))
    | inl (o, p) ↦
        read_rules-IsEntry (suc n) ls (given ++ o ∷ []) ovs
          (All-append (λ (o : Override). IsEntry (as_entry o)) given (o ∷ []) h
            (parse_override_line-IsEntry (trim_space l) o p, tt))
          (sym (rw (read_rules, r, p) refl) ∙ e)
  ]
]
