-- ===== src/Banmap/Keys.antt =====
-- Keys of the two LPM tries and of the target table.
use xdp_invisible_armor.Common.{
  ℕ, ◌+◌, ◌-◌, ◌^◌, ◌≤◌, ◌<◌, ◌≡◌, ◌↔◌, refl, ap, sym, ◌∙◌, arith, Option, some, none, ◌>>=◌, is_ok,
  List, ◌++◌, ok, err, length, le_bytes, from_le, from_le-le_bytes, as4, from_be, from_be-as4,
  Result, ok-injective, true, slice,
}
use mathlib.Core.Path.{ap₂}
use xdp_invisible_armor.Netip.{v4, Prefix, masked, value, clear_low, is4}
use xdp_invisible_armor.Banmap.{
  Error, encode_global_key, decode_global_key, encode_src_key, global_key_size,
}

abbrev pub v4_prefix : ℕ → ℕ → Prefix
v4_prefix a n = record { addr = v4 a; bits = n }

pub clear_low-lt : (k a b : ℕ) → a < b → clear_low k a < b
clear_low-lt k a b h = omega arith

encode_global_key_lem :
    (a n : ℕ)
    → n ≤ 32
    → encode_global_key (v4_prefix a n) ≡ ok (le_bytes 4 n ++ as4 (clear_low (32 - n) a))
unfolding encode_global_key
encode_global_key_lem a n h = ground arith

-- The parts that `DecodeGlobalKey` reads determine its answer.
decode_parts :
    (b : List ℕ) (a n : ℕ)
    → length b ≡ global_key_size
    → from_le (slice 0 4 b) ≡ n
    → from_be (slice 4 8 b) ≡ a
    → n ≤ 32
    → decode_global_key b ≡ ok (v4_prefix a n)
unfolding decode_global_key
decode_parts b a n h e f k = ground arith

decode_bytes :
    (a n : ℕ) → a < 2 ^ 32 → n ≤ 32 → decode_global_key (le_bytes 4 n ++ as4 a) ≡ ok (v4_prefix a n)
unfolding le_bytes as4
decode_bytes a n h k =
    decode_parts (le_bytes 4 n ++ as4 a) a n refl (from_le-le_bytes 4 n (omega arith))
      (from_be-as4 a h) k

pub decode_global_key-encode_global_key :
    (a n : ℕ)
    → a < 2 ^ 32
    → n ≤ 32
    → (encode_global_key (v4_prefix a n) >>= decode_global_key) ≡ ok (masked (v4_prefix a n))
decode_global_key-encode_global_key a n h k =
    rw (encode_global_key_lem a n k)
      (decode_bytes (clear_low (32 - n) a) n (clear_low-lt (32 - n) a (2 ^ 32) h) k)

-- Two global bans share a map entry exactly if their masked prefixes are the same.
pub encode_global_key_collision :
    (a n b m : ℕ)
    → a < 2 ^ 32
    → n ≤ 32
    → b < 2 ^ 32
    → m ≤ 32
    → (encode_global_key (v4_prefix a n) ≡ encode_global_key (v4_prefix b m))
      ↔ (masked (v4_prefix a n) ≡ masked (v4_prefix b m))
encode_global_key_collision a n b m ha hn hb hm = (
  λ e. ok-injective (
      sym (decode_global_key-encode_global_key a n ha hn)
      ∙ ap (λ r. r >>= decode_global_key) e
      ∙ decode_global_key-encode_global_key b m hb hm),
  λ e.
      encode_global_key_lem a n hn
      ∙ ap (λ p. ok (le_bytes 4 p.bits ++ as4 (value p.addr))) e
      ∙ sym (encode_global_key_lem b m hm),
)

encode_src_key_lem :
    (t a n : ℕ)
    → n ≤ 32
    → encode_src_key t (v4_prefix a n)
      ≡ ok (le_bytes 4 (32 + n) ++ (le_bytes 4 t ++ as4 (clear_low (32 - n) a)))
unfolding encode_src_key
encode_src_key_lem t a n h = ground arith

-- The three parts of a key of the scoped trie, as the kernel's struct lays them out.
unfoldable pub src_parts : List ℕ → ℕ × ℕ × ℕ
src_parts b = (from_le (slice 0 4 b), from_le (slice 4 8 b), from_be (slice 8 12 b))

abbrev pub src_parts_of : Result Error (List ℕ) → Option (ℕ × ℕ × ℕ)
src_parts_of (ok b) = some (src_parts b)
src_parts_of (err e) = none

-- A scoped key holds the length of target and source together, the target, and the masked source.
pub src_parts-encode_src_key :
    (t a n : ℕ)
    → t < 2 ^ 32
    → a < 2 ^ 32
    → n ≤ 32
    → src_parts_of (encode_src_key t (v4_prefix a n)) ≡ some (32 + n, t, clear_low (32 - n) a)
unfolding src_parts le_bytes as4
src_parts-encode_src_key t a n ht ha hn = rw (encode_src_key_lem t a n hn) (λ i. some (
  from_le-le_bytes 4 (32 + n) (omega arith) i,
  from_le-le_bytes 4 t ht i,
  from_be-as4 (clear_low (32 - n) a) (clear_low-lt (32 - n) a (2 ^ 32) ha) i,
))

-- Two scoped bans share a map entry exactly if target and masked source are the same.
pub encode_src_key_collision :
    (t a n u b m : ℕ)
    → t < 2 ^ 32
    → a < 2 ^ 32
    → n ≤ 32
    → u < 2 ^ 32
    → b < 2 ^ 32
    → m ≤ 32
    → (encode_src_key t (v4_prefix a n) ≡ encode_src_key u (v4_prefix b m))
      ↔ ((t ≡ u) × (masked (v4_prefix a n) ≡ masked (v4_prefix b m)))
encode_src_key_collision t a n u b m ht ha hn hu hb hm = (
  λ e. split (
      sym (src_parts-encode_src_key t a n ht ha hn)
      ∙ ap src_parts_of e
      ∙ src_parts-encode_src_key u b m hu hb hm),
  λ e.
      encode_src_key_lem t a n hn
      ∙ ap₂ (λ i p. ok (le_bytes 4 (32 + p.bits) ++ (le_bytes 4 i ++ as4 (value p.addr)))) e.0 e.1
      ∙ sym (encode_src_key_lem u b m hm),
)
  where
    split :
        ◌≡◌ {A = Option (ℕ × ℕ × ℕ)}
          (some (32 + n, t, clear_low (32 - n) a))
          (some (32 + m, u, clear_low (32 - m) b))
        → (t ≡ u) × (masked (v4_prefix a n) ≡ masked (v4_prefix b m))
    split e = ground arith

-- Only an IPv4 prefix of at most 32 bits has a key, in either map.
pub encode_key_domain :
    (t : ℕ) (p : Prefix)
    → (is_ok (encode_global_key p) ≡ is_ok (encode_src_key t p))
      × ((is_ok (encode_global_key p) ≡ true) ↔ ((is4 p.addr ≡ true) × (p.bits ≤ 32)))
unfolding encode_global_key encode_src_key
encode_key_domain t p = (ground arith, (λ h. ground arith, λ h. ground arith))
