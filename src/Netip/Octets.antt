-- ===== src/Netip/Octets.antt =====
-- The dotted quad reads back as the address that it prints.
use xdp_invisible_armor.Common.{
  ℕ, zero, suc, ◌+◌, ◌-◌, ◌*◌, ◌/◌, ◌%◌, ◌^◌, ◌≤◌, ◌<◌, ◌≡◌, ◌⊎◌, refl, sym, ap, ◌∙◌, arith, inl,
  inr, true, false, Bool, Bool-cases, ltb, ltb→lt, ◌==◌, is_digit, List, [], ◌∷◌, ◌++◌, length,
  Option, none, some, Text, format, digits, format-All, format_head, All, parse_uint, passes_under,
  passes_under_lem,
}
use mathlib.Core.List.{append_assoc, append-nil}
use xdp_invisible_armor.Netip.Defs.{v4, v4_text, v4_prefix_text}
use xdp_invisible_armor.Netip.V6.{v4_fields}
use xdp_invisible_armor.Netip.Reading.{
  parse_addr, parse_ipv4, addr_form, cut_last, prefix_bits, parse_prefix,
}

-- One more digit of an octet that does not begin with a zero.
fields_digit :
    (d val dl : ℕ) (s : Text) (fs : List ℕ)
    → d < 10
    → val * 10 + d < 256
    → (dl ≡ 0) ⊎ (0 < val)
    → v4_fields ((b'0' + d) ∷ s) val dl fs ≡ v4_fields s (val * 10 + d) (dl + 1) fs
unfolding v4_fields
fields_digit d val dl s fs h k nz = ground (arith, ap (λ (t : ℕ). v4_fields s t (dl + 1) fs) same)
  where
    same : val * 10 + (b'0' + d - b'0') ≡ val * 10 + d
    same = omega arith

cong_fields :
    (s : Text) (fs : List ℕ) (a b i j : ℕ) → a ≡ b → i ≡ j → v4_fields s a i fs ≡ v4_fields s b j fs
cong_fields s fs a b i j e f = rw (e, f)

fields-digits :
    (f n : ℕ) (s : Text) (fs : List ℕ)
    → n ≤ f
    → n < 256
    → (k : ℕ) × (v4_fields (digits f n ++ s) 0 0 fs ≡ v4_fields s n (suc k) fs)
unfolding digits
fields-digits zero n s fs h k = (
  0,
  fields_digit (n % 10) 0 0 s fs (omega arith) (omega arith) (inl refl)
      ∙ cong_fields s fs (0 * 10 + n % 10) n (0 + 1) 1 (omega arith) (omega arith),
)
fields-digits (suc f) n s fs h k = elim (Bool-cases (ltb n 10)) [
  | inl small ↦ (
    0,
    rw small (
        fields_digit n 0 0 s fs (ltb→lt n 10 small) (omega arith) (inl refl)
        ∙ cong_fields s fs (0 * 10 + n) n (0 + 1) 1 (omega arith) (omega arith)),
  )
  | inr large ↦
      let (j, e) = fields-digits f (n / 10) ((b'0' + n % 10) ∷ s) fs (ground arith) (omega arith) in
      (
        suc j,
        rw (large, append_assoc (digits f (n / 10)) ((b'0' + n % 10) ∷ []) s)
            (e
              ∙ fields_digit (n % 10) (n / 10) (suc j) s fs (omega arith) (omega arith)
                  (inr (ground arith))
              ∙ cong_fields s fs (n / 10 * 10 + n % 10) n (suc j + 1) (suc (suc j)) (omega arith)
                  (omega arith)),
      )
]

fields-format :
    (n : ℕ) (s : Text) (fs : List ℕ)
    → n < 256
    → (k : ℕ) × (v4_fields (format n ++ s) 0 0 fs ≡ v4_fields s n (suc k) fs)
unfolding format
fields-format n s fs h = fields-digits n n s fs (omega arith) h

fields-dot :
    (n m k : ℕ) (s : Text) (fs : List ℕ)
    → length fs < 3
    → v4_fields (b'.' ∷ (format m ++ s)) n (suc k) fs ≡ v4_fields (format m ++ s) 0 0 (fs ++ n ∷ [])
unfolding v4_fields
fields-dot n m k s fs h = let (c, t, e) = format_head m in rw e (ground arith)

-- An octet and the dot behind it.
fields-octet :
    (n m : ℕ) (s : Text) (fs : List ℕ)
    → n < 256
    → length fs < 3
    → v4_fields (format n ++ (b'.' ∷ (format m ++ s))) 0 0 fs
      ≡ v4_fields (format m ++ s) 0 0 (fs ++ n ∷ [])
fields-octet n m s fs h k =
    let (j, e) = fields-format n (b'.' ∷ (format m ++ s)) fs h in e ∙ fields-dot n m j s fs k

fields-last :
    (n : ℕ) (fs : List ℕ)
    → n < 256
    → length fs ≡ 3
    → v4_fields (format n) 0 0 fs ≡ some (fs ++ n ∷ [])
fields-last n fs h k =
    let (j, e) = fields-format n [] fs h in
    ap (λ t. v4_fields t 0 0 fs) (sym (append-nil (format n)))
    ∙ e
    ∙ unfold v4_fields in ground arith

join_bytes :
    (a : ℕ)
    → a < 2 ^ 32
    → ((a / 2 ^ 24 % 256 * 256 + a / 2 ^ 16 % 256) * 256 + a / 2 ^ 8 % 256) * 256 + a % 256 ≡ a
join_bytes a h = omega arith

pub parse_ipv4-v4_text : (a : ℕ) → a < 2 ^ 32 → parse_ipv4 (v4_text a) ≡ some a
unfolding parse_ipv4 v4_text
parse_ipv4-v4_text a h = rw (octets, parse_ipv4) (ap some (join_bytes a h))
  where
    octets :
        v4_fields (v4_text a) 0 0 []
        ≡ some ((a / 2 ^ 24 % 256) ∷ (a / 2 ^ 16 % 256) ∷ (a / 2 ^ 8 % 256) ∷ (a % 256) ∷ [])
    octets =
        let o1 = a / 2 ^ 24 % 256 in
        let o2 = a / 2 ^ 16 % 256 in
        let o3 = a / 2 ^ 8 % 256 in
        let o4 = a % 256 in
        fields-octet o1 o2 (b'.' ∷ (format o3 ++ (b'.' ∷ format o4))) [] (omega arith) (omega arith)
        ∙ fields-octet o2 o3 (b'.' ∷ format o4) (o1 ∷ []) (omega arith) (omega arith)
        ∙ ap (λ t. v4_fields (format o3 ++ (b'.' ∷ t)) 0 0 (o1 ∷ o2 ∷ []))
            (sym (append-nil (format o4)))
        ∙ fields-octet o3 o4 [] (o1 ∷ o2 ∷ []) (omega arith) (omega arith)
        ∙ ap (λ t. v4_fields t 0 0 (o1 ∷ o2 ∷ o3 ∷ [])) (append-nil (format o4))
        ∙ fields-last o4 (o1 ∷ o2 ∷ o3 ∷ []) (omega arith) refl

addr_form-digits : (t s : Text) → All (λ c. is_digit c ≡ true) t → addr_form (t ++ s) ≡ addr_form s
unfolding addr_form
addr_form-digits [] s h = refl
addr_form-digits (c ∷ t) s h = ground (arith, addr_form-digits t s h.1)

addr_form-v4_text : (a : ℕ) → addr_form (v4_text a) ≡ b'.'
unfolding v4_text
addr_form-v4_text a =
    addr_form-digits (format (a / 2 ^ 24 % 256)) _ (format-All _) ∙ unfold addr_form in refl

-- `ParseAddr` reads back the dotted quad that `String` prints.
pub parse_addr-v4_text : (a : ℕ) → a < 2 ^ 32 → parse_addr (v4_text a) ≡ some (v4 a)
unfolding parse_addr
parse_addr-v4_text a h = unfold_form (v4_text a) a (addr_form-v4_text a) (parse_ipv4-v4_text a h)
  where
    unfold_form :
        (t : Text) (b : ℕ) → addr_form t ≡ b'.' → parse_ipv4 t ≡ some b → parse_addr t ≡ some (v4 b)
    unfold_form t b e f = rw (e, f, parse_addr)

-- The last slash is found behind any front, if the back has none.
cut_last-none : (c : ℕ) (s : Text) → All (λ x. (x == c) ≡ false) s → cut_last c s ≡ none
unfolding cut_last
cut_last-none c [] h = refl
cut_last-none c (x ∷ s) h = rw (cut_last-none c s h.1, h.0)

cut_last-append :
    (c : ℕ) (s t : Text) → All (λ x. (x == c) ≡ false) t → cut_last c (s ++ (c ∷ t)) ≡ some (s, t)
unfolding cut_last
cut_last-append c [] t h = rw (cut_last-none c t h) (ground arith)
cut_last-append c (x ∷ s) t h = rw (cut_last-append c s t h)

digit-ne-slash : (s : Text) → All (λ c. is_digit c ≡ true) s → All (λ x. (x == b'/') ≡ false) s
digit-ne-slash [] h = tt
digit-ne-slash (c ∷ s) h = (ground arith, digit-ne-slash s h.1)

agrees : Option ℕ → ℕ → Bool
agrees none n = false
agrees (some m) n = m == n

agrees→eq : (o : Option ℕ) (n : ℕ) → agrees o n ≡ true → o ≡ some n
unfolding agrees
agrees→eq none n h = ground arith
agrees→eq (some m) n h = ground arith

prefix_bits-format : (n : ℕ) → n < 33 → prefix_bits 32 (format n) ≡ some n
prefix_bits-format n h =
    agrees→eq (prefix_bits 32 (format n)) n
      (passes_under_lem (λ n. agrees (prefix_bits 32 (format n)) n) 33 n h table)
  where
    table : passes_under (λ n. agrees (prefix_bits 32 (format n)) n) 33 ≡ true
    table = unfold passes_under agrees prefix_bits format parse_uint in refl

parse_prefix_parts :
    (t front back : Text) (a n : ℕ)
    → cut_last b'/' t ≡ some (front, back)
    → parse_addr front ≡ some (v4 a)
    → prefix_bits 32 back ≡ some n
    → parse_prefix t ≡ some (record { addr = v4 a; bits = n })
unfolding parse_prefix
parse_prefix_parts t front back a n e f g = rw (e, f, g, parse_prefix)

-- `ParsePrefix` reads back the text that `Prefix.String` prints.
pub parse_prefix-v4_prefix_text :
    (a n : ℕ)
    → a < 2 ^ 32
    → n ≤ 32
    → parse_prefix (v4_prefix_text a n) ≡ some (record { addr = v4 a; bits = n })
unfolding v4_prefix_text
parse_prefix-v4_prefix_text a n h k =
    parse_prefix_parts _ (v4_text a) (format n) a n
      (cut_last-append b'/' (v4_text a) (format n) (digit-ne-slash _ (format-All n)))
      (parse_addr-v4_text a h) (prefix_bits-format n (omega arith))
