-- ===== src/PrefixDb/Cidrs/Tiling.antt =====
-- The blocks of a range tile it.
use xdp_invisible_armor.Common.{
  ℕ, zero, suc, ◌+◌, ◌-◌, ◌%◌, ◌^◌, ◌≤◌, ◌<◌, ◌≡◌, refl, arith, inl, inr, true, Bool, ◌&&◌,
  Bool-cases, leb, ltb, ltb→lt, ◌==◌, ==_iff, List, [], ◌∷◌, ◌++◌, pow_pos, mod-pow_le,
  if◌then◌else◌,
}
use xdp_invisible_armor.Netip.{Prefix, value, is4}
use xdp_invisible_armor.PrefixDb.Cidrs.{align, fit, block_bits, cidrs_loop, range_to_cidrs}

-- The number of addresses of an IPv4 prefix.
abbrev pub size : Prefix → ℕ
size p = 2 ^ (32 - p.bits)

-- A block that starts where its size divides the address.
abbrev pub IsBlock : Prefix → Type 0
IsBlock p = (is4 p.addr ≡ true) × (p.bits ≤ 32) × (value p.addr % size p ≡ 0)

-- The blocks follow one another without gap or overlap, from `start` up to `stop`, not included.
abbrev pub Tiles : ℕ → ℕ → List Prefix → Type 0
Tiles start stop [] = start ≡ stop
Tiles start stop (p ∷ ps) = (value p.addr ≡ start) × IsBlock p × Tiles (start + size p) stop ps

align_aligned :
    (start m : ℕ)
    → m ≤ 32
    → start % 2 ^ (32 - m) ≡ 0
    → (align start m ≤ m) × (start % 2 ^ (32 - align start m) ≡ 0)
unfolding align
align_aligned start zero h e = (omega arith, e)
align_aligned start (suc m) h e = elim (Bool-cases (start % 2 ^ (32 - m) == 0)) [
  | inl more ↦
      rw (more, align)
        (let (p, q) = align_aligned start m (omega arith) ((==_iff _ 0).0 more) in (omega arith, q))
  | inr stop ↦ rw (stop, align) (omega arith, e)
]

fit_fits :
    (fuel start m remaining : ℕ)
    → m + fuel ≡ 32
    → 0 < remaining
    → start % 2 ^ (32 - m) ≡ 0
    → (fit fuel m remaining ≤ 32)
      × (2 ^ (32 - fit fuel m remaining) ≤ remaining)
      × (start % 2 ^ (32 - fit fuel m remaining) ≡ 0)
unfolding fit
fit_fits zero start m remaining h k e =
    let full : m ≡ 32 = omega arith in (omega arith, rw full (omega arith), e)
fit_fits (suc fuel) start m remaining h k e = elim (Bool-cases (leb (2 ^ (32 - m)) remaining)) [
  | inl fits ↦ rw (fits, fit) (omega arith, ground arith, e)
  | inr large ↦
      rw (large, fit)
        (fit_fits fuel start (m + 1) remaining (omega arith) k
          (mod-pow_le (32 - (m + 1)) (32 - m) start (omega arith) e))
]

block_bits_fits :
    (start last : ℕ)
    → start ≤ last
    → (block_bits start last ≤ 32)
      × (2 ^ (32 - block_bits start last) ≤ last - start + 1)
      × (start % 2 ^ (32 - block_bits start last) ≡ 0)
unfolding block_bits
block_bits_fits start last h =
    let (small, aligned) = align_aligned start 32 (omega arith) (omega arith) in
    fit_fits (32 - align start 32) start (align start 32) (last - start + 1) (omega arith)
      (omega arith) aligned

-- One round: the range is done, or a block is split off; the fuel counts the addresses left.
cidrs_loop-Tiles :
    (fuel start last : ℕ)
    → last < 2 ^ 32
    → start ≤ last + 1
    → last + 1 ≤ start + fuel
    → Tiles start (last + 1) (cidrs_loop fuel start last)
unfolding cidrs_loop
cidrs_loop-Tiles zero start last h k e = omega arith
cidrs_loop-Tiles (suc fuel) start last h k e = elim (Bool-cases (ltb last start)) [
  | inl over ↦ rw over (omega (arith, ltb→lt last start over))
  | inr more ↦
      let inside : start ≤ last = ground arith in
      let (small, fits, aligned) = block_bits_fits start last inside in
      let positive = pow_pos (32 - block_bits start last) in
      elim (Bool-cases (ltb (2 ^ 32 - 1) (start + 2 ^ (32 - block_bits start last)))) [
        | inl end ↦ rw (more, end) (refl, (refl, small, aligned), ground arith)
        | inr on ↦
            rw (more, on)
              (
                refl,
                (refl, small, aligned),
                cidrs_loop-Tiles fuel (start + 2 ^ (32 - block_bits start last)) last h
                    (omega arith) (omega arith),
              )
      ]
]

-- The blocks of a range are aligned and tile it: from its first address to its last, each address
-- in one block.
pub range_to_cidrs-Tiles :
    (start last : ℕ)
    → start ≤ last
    → last < 2 ^ 32
    → Tiles start (last + 1) (range_to_cidrs start last)
unfolding range_to_cidrs
range_to_cidrs-Tiles start last h k =
    cidrs_loop-Tiles (last + 1 - start) start last k (omega arith) (omega arith)

-- Whether the address `x` lies in the block, and in how many blocks of a list.
abbrev pub in_block : Prefix → ℕ → Bool
in_block p x = leb (value p.addr) x && ltb x (value p.addr + size p)

abbrev pub hits : ℕ → List Prefix → ℕ
hits x [] = 0
hits x (p ∷ ps) = (if in_block p x then 1 else 0) + hits x ps

abbrev pub addresses : List Prefix → ℕ
addresses [] = 0
addresses (p ∷ ps) = size p + addresses ps

pub hits-append : (x : ℕ) (ps qs : List Prefix) → hits x (ps ++ qs) ≡ hits x ps + hits x qs
hits-append x [] qs = omega arith
hits-append x (p ∷ ps) qs = omega (arith, hits-append x ps qs)

pub addresses-append : (ps qs : List Prefix) → addresses (ps ++ qs) ≡ addresses ps + addresses qs
addresses-append [] qs = omega arith
addresses-append (p ∷ ps) qs = omega (arith, addresses-append ps qs)

pub Tiles-addresses :
    (start stop : ℕ) (ps : List Prefix) → Tiles start stop ps → start + addresses ps ≡ stop
Tiles-addresses start stop [] t = omega arith
Tiles-addresses start stop (p ∷ ps) t = omega (arith, Tiles-addresses (start + size p) stop ps t.2)

pub Tiles-hits :
    (start stop x : ℕ) (ps : List Prefix)
    → Tiles start stop ps
    → hits x ps ≡ (if leb start x && ltb x stop then 1 else 0)
Tiles-hits start stop x [] t = ground arith
Tiles-hits start stop x (p ∷ ps) t = ground (
  arith,
  t.0,
  pow_pos (32 - p.bits),
  Tiles-hits (start + size p) stop x ps t.2,
  Tiles-addresses (start + size p) stop ps t.2,
)
