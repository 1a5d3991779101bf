-- ===== src/Banmap/Values.antt =====
-- Ban values and deadlines.
use xdp_invisible_armor.Common.{
  ℕ, ◌+◌, ◌-◌, ◌*◌, ◌^◌, ◌≤◌, ◌<◌, ◌≡◌, ◌↔◌, refl, arith, List, ok, err, is_ok, ℤ, pos, is_positive,
  Bool, true, false, not, ◌&&◌, ◌==◌, ltb, length, le_bytes, from_le-le_bytes,
}
use xdp_invisible_armor.Banmap.{
  Value, short_value, encode_value, decode_value, ktime_deadline, second, value_size,
}

-- A ban value whose fields fit their widths is read back from the 24 bytes that it is written to.
pub decode_value-encode_value :
    (v : Value)
    → v.expires_at < 2 ^ 64
    → v.hits < 2 ^ 64
    → v.rule_id < 2 ^ 32
    → (length (encode_value v) ≡ value_size) × (decode_value (encode_value v) ≡ ok v)
unfolding encode_value decode_value le_bytes
decode_value-encode_value v h1 h2 h3 = (
  refl,
  λ i. ok (record {
    expires_at = from_le-le_bytes 8 v.expires_at h1 i;
    hits = from_le-le_bytes 8 v.hits h2 i;
    rule_id = from_le-le_bytes 4 v.rule_id h3 i;
  }),
)

-- Bytes that are too few are refused, and no others.
pub decode_value-short :
    (b : List ℕ)
    → (length b < value_size → decode_value b ≡ err (short_value (length b)))
      × (value_size ≤ length b → is_ok (decode_value b) ≡ true)
unfolding decode_value
decode_value-short b = (λ h. ground arith, λ h. ground arith)

-- `is_expired` of bpf/xdp_filter.c, at the kernel's clock `ktime`: an entry with deadline 0 never
-- expires.
abbrev pub is_expired : Value → ℕ → Bool
is_expired v ktime = not (v.expires_at == 0) && ltb v.expires_at ktime

-- A ban written at `now` with a positive TTL below 2 ^ 32 seconds has run out at a later time
-- exactly if more than the TTL has passed; the host has been up for less than 2 ^ 62 nanoseconds.
pub ktime_deadline_expiry :
    (boot now later ttl hits rule : ℕ)
    → boot ≤ now
    → now ≤ later
    → now - boot < 2 ^ 62
    → 0 < ttl
    → ttl < 2 ^ 32
    → (is_expired
          (record { expires_at = ktime_deadline boot now (pos ttl); hits = hits; rule_id = rule })
          (later - boot)
        ≡ true)
      ↔ (now + ttl * second < later)
unfolding ktime_deadline
ktime_deadline_expiry boot now later ttl hits rule h1 h2 h3 h4 h5 =
    (λ e. ground arith, λ e. ground arith)

-- A TTL that is not positive never runs out.
pub ktime_deadline_permanent :
    (boot now ktime hits rule : ℕ) (t : ℤ)
    → is_positive t ≡ false
    → is_expired
        (record { expires_at = ktime_deadline boot now t; hits = hits; rule_id = rule })
        ktime
      ≡ false
unfolding ktime_deadline
ktime_deadline_permanent boot now ktime hits rule t h = ground arith
