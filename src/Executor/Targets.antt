-- ===== src/Executor/Targets.antt =====
-- The numbers of the target hosts: distinct, and the same in the kernel as in the process.
use xdp_invisible_armor.Common.{
  ℕ, ◌+◌, ◌%◌, ◌^◌, ◌<◌, ◌≡◌, ◌⊎◌, inl, inr, refl, sym, ap, ◌∙◌, arith, true, false, Option, none,
  some, some_inj, is_empty, Result-cases, Option-cases, Bool-cases, Text, text_eq, text_eq→eq,
  text_eq_self, Result, ok, err, Map, lookup, insert, lookup-insert_other, as4, from_be,
  from_be-as4,
}
use mathlib.Core.Path.{subst}
use native.Mathlib.Nat.{mod-eq_of_lt}
use xdp_invisible_armor.Netip.{Addr, v4, v6, parse_addr, v4_text}
use xdp_invisible_armor.Netip.Octets.{parse_addr-v4_text}
use xdp_invisible_armor.Banmap.{
  parse_ipv4_prefix, encode_global_key, encode_target_key, encode_target_id,
}
use xdp_invisible_armor.Model.{BanPayload, Failure, target_write}
use xdp_invisible_armor.Executor.{
  MapWriter, IsMapWriter, BanMaps, ensure_target, apply, apply_global, apply_scoped, ban_value,
}
use xdp_invisible_armor.Netip.Bounds.{parse_addr-v4_lt}

-- Numbers below the next one, and never one for two targets.
abbrev pub IsNumbered : Map ℕ → ℕ → Type 0
IsNumbered ids next =
    ((k : Text) (v : ℕ) → lookup k ids ≡ some v → v < next)
    × ((j k : Text) (v : ℕ) → lookup j ids ≡ some v → lookup k ids ≡ some v → text_eq j k ≡ true)

insert-below :
    (ids : Map ℕ) (next : ℕ) (t : Text)
    → IsNumbered ids next
    → (k : Text) (v : ℕ) → lookup k (insert t next ids) ≡ some v
    → ((text_eq k t ≡ true) × (v ≡ next)) ⊎ ((lookup k ids ≡ some v) × (v < next))
insert-below ids next t h k v e = elim (Bool-cases (text_eq k t)) [
  | inl s ↦ inl (s, ground (arith, s))
  | inr s ↦ let f = sym (lookup-insert_other k t next ids s) ∙ e in inr (f, h.0 k v f)
]

insert-IsNumbered :
    (ids : Map ℕ) (next : ℕ) (t : Text)
    → IsNumbered ids next
    → IsNumbered (insert t next ids) (next + 1)
insert-IsNumbered ids next t h = (
  λ k v e. elim (insert-below ids next t h k v e) [
    | inl (s, q) ↦ omega (arith, q)
    | inr (f, q) ↦ omega (arith, q)
  ],
  λ j k v e f. joined j k v (insert-below ids next t h j v e) (insert-below ids next t h k v f),
)
  where
    joined :
        (j k : Text) (v : ℕ)
        → ((text_eq j t ≡ true) × (v ≡ next)) ⊎ ((lookup j ids ≡ some v) × (v < next))
        → ((text_eq k t ≡ true) × (v ≡ next)) ⊎ ((lookup k ids ≡ some v) × (v < next))
        → text_eq j k ≡ true
    joined j k v (inl (s, q)) (inl (r, p)) =
        ap (λ x. text_eq x k) (text_eq→eq j t s)
        ∙ ap (λ x. text_eq t x) (text_eq→eq k t r)
        ∙ text_eq_self t
    joined j k v (inl (s, q)) (inr (f, p)) = absurd (omega (arith, q, p))
    joined j k v (inr (f, p)) (inl (s, q)) = absurd (omega (arith, q, p))
    joined j k v (inr (e, q)) (inr (f, p)) = h.1 j k v e f

module _ {C : Type 0} (w : MapWriter C) where
  abbrev numbered : ℕ → C → BanMaps C → BanMaps C
  numbered a hosts m = record m {
    target_hosts = hosts;
    target_ids = insert (v4_text a) m.next_target_id m.target_ids;
    next_target_id = (m.next_target_id + 1) % 2 ^ 32;
  }

  -- The target was known, or the kernel refused it, or it has its number now.
  pub ensure-cases :
      (a : ℕ) (m : BanMaps C)
      → ((tid : ℕ) × (lookup (v4_text a) m.target_ids ≡ some tid)
          × (ensure_target w a m ≡ (m, ok tid)))
        ⊎ (((e : Failure) × (ensure_target w a m ≡ (m, err e)))
            ⊎ ((hosts : C) × (lookup (v4_text a) m.target_ids ≡ none)
                × (w.put (as4 a) (encode_target_id m.next_target_id) m.target_hosts ≡ some hosts)
                × (ensure_target w a m ≡ (numbered a hosts m, ok m.next_target_id))))
  unfolding ensure_target encode_target_key
  ensure-cases a m = elim (Option-cases (lookup (v4_text a) m.target_ids)) [
    | inr (tid, e) ↦ inl (tid, e, rw (ensure_target, e) refl)
    | inl n ↦
        elim (Option-cases (w.put (as4 a) (encode_target_id m.next_target_id) m.target_hosts)) [
          | inl f ↦ inr (inl (target_write (v4_text a), rw (ensure_target, n, f) refl))
          | inr (hosts, f) ↦ inr (inr (hosts, n, f, rw (ensure_target, n, f) refl))
        ]
  ]

-- The kernel's table of targets has each number that the process has given.
abbrev pub IsInstalled : {C : Type 0} → MapWriter C → C → Map ℕ → Type 0
IsInstalled w hosts ids =
    (a tid : ℕ)
    → a < 2 ^ 32
    → lookup (v4_text a) ids ≡ some tid
    → lookup (as4 a) (w.entries hosts) ≡ some (encode_target_id tid)

pub record IsTargets {C : Type 0} (w : MapWriter C) (m : BanMaps C) : Type 0 where
  pub numbering : IsNumbered m.target_ids m.next_target_id
  pub installed : IsInstalled w m.target_hosts m.target_ids

same_text : (a b : ℕ) → a < 2 ^ 32 → b < 2 ^ 32 → v4_text a ≡ v4_text b → a ≡ b
same_text a b h k e =
    same_addr (sym (parse_addr-v4_text a h) ∙ ap (λ t. parse_addr t) e ∙ parse_addr-v4_text b k)
  where
    same_addr : {x y : ℕ} → some (v4 x) ≡ some (v4 y) → x ≡ y
    same_addr e = cc

same_bytes : (a b : ℕ) → a < 2 ^ 32 → b < 2 ^ 32 → as4 a ≡ as4 b → a ≡ b
same_bytes a b h k e = sym (from_be-as4 a h) ∙ ap (λ t. from_be t) e ∙ from_be-as4 b k

differ_bytes :
    (a b : ℕ)
    → a < 2 ^ 32
    → b < 2 ^ 32
    → text_eq (v4_text a) (v4_text b) ≡ false
    → text_eq (as4 a) (as4 b) ≡ false
differ_bytes a b h k e = elim (Bool-cases (text_eq (as4 a) (as4 b))) [
  | inr f ↦ f
  | inl f ↦ absurd (clash (same_bytes a b h k (text_eq→eq (as4 a) (as4 b) f)))
]
  where
    false≢true : false ≡ true → ⊥
    false≢true q = cc

    clash : a ≡ b → ⊥
    clash q =
        false≢true
          (sym e ∙ ap (λ x. text_eq (v4_text a) (v4_text x)) (sym q) ∙ text_eq_self (v4_text a))

module _ {C : Type 0} (w : MapWriter C) where
  numbered-IsTargets :
      (law : IsMapWriter w) (a : ℕ) (m : BanMaps C) (hosts : C)
      → a < 2 ^ 32
      → m.next_target_id + 1 < 2 ^ 32
      → IsTargets w m
      → w.put (as4 a) (encode_target_id m.next_target_id) m.target_hosts ≡ some hosts
      → IsTargets w (numbered w a hosts m)
  numbered-IsTargets law a m hosts h k t e = record {
    numbering =
        subst (λ n. IsNumbered (insert (v4_text a) m.next_target_id m.target_ids) n)
          (sym (mod-eq_of_lt k))
          (insert-IsNumbered m.target_ids m.next_target_id (v4_text a) t.numbering);
    installed = λ b tid l f. elim (Bool-cases (text_eq (v4_text b) (v4_text a))) [
      | inl s ↦ same b tid l s f
      | inr s ↦
          law.put-other (as4 b) (as4 a) _ m.target_hosts hosts e (differ_bytes b a l h s)
          ∙ t.installed b tid l (
              sym (lookup-insert_other (v4_text b) (v4_text a) m.next_target_id m.target_ids s) ∙ f)
    ];
  }
    where
      same :
          (b tid : ℕ)
          → b < 2 ^ 32
          → text_eq (v4_text b) (v4_text a) ≡ true
          → lookup (v4_text b) (insert (v4_text a) m.next_target_id m.target_ids) ≡ some tid
          → lookup (as4 b) (w.entries hosts) ≡ some (encode_target_id tid)
      same b tid l s f =
          ap (λ x. lookup (as4 x) (w.entries hosts))
            (same_text b a l h (text_eq→eq (v4_text b) (v4_text a) s))
          ∙ law.put-same (as4 a) _ m.target_hosts hosts e
          ∙ ap (λ x. some (encode_target_id x)) (some_inj (ground (arith, s)))

  -- Giving a target its number keeps the numbers distinct and the kernel's table in step with them,
  -- and where it succeeds the kernel has the target under the number returned.
  pub ensure_target-IsTargets :
      (law : IsMapWriter w) (a : ℕ) (m : BanMaps C)
      → a < 2 ^ 32
      → m.next_target_id + 1 < 2 ^ 32
      → IsTargets w m
      → let r = ensure_target w a m in
        IsTargets w r.0
        × ((tid : ℕ)
            → r.1 ≡ ok tid
            → lookup (as4 a) (w.entries r.0.target_hosts) ≡ some (encode_target_id tid))
  ensure_target-IsTargets law a m h k t = elim (ensure-cases w a m) [
    | inl (tid, e, f) ↦ rw f (t, λ x q. t.installed a x h (e ∙ ap some (ok_inj q)))
    | inr (inl (e, f)) ↦ rw f (t, λ x q. cc)
    | inr (inr (hosts, n, e, f)) ↦ rw f (
      numbered-IsTargets law a m hosts h k t e,
      λ x q.
          law.put-same (as4 a) _ m.target_hosts hosts e
          ∙ ap (λ y. some (encode_target_id y)) (ok_inj q),
    )
  ]
    where
      ok_inj : {x y : ℕ} → ◌≡◌ {A = Result Failure ℕ} (ok x) (ok y) → x ≡ y
      ok_inj e = cc

  with_bans :
      (m : BanMaps C) (bans src : C)
      → IsTargets w m
      → IsTargets w (record m { global_bans = bans; src_bans = src })
  with_bans m bans src t = record { numbering = t.numbering; installed = t.installed }

  global-IsTargets :
      (p : BanPayload) (val : Text) (m : BanMaps C)
      → IsTargets w m
      → IsTargets w (apply_global w p val m).0
  unfolding apply_global
  global-IsTargets p val m t = elim (Result-cases (parse_ipv4_prefix p.target)) [
    | inr (e, f) ↦ rw (apply_global, f) t
    | inl (q, f) ↦ elim (Result-cases (encode_global_key q)) [
      | inr (e, g) ↦ rw (apply_global, f, g) t
      | inl (key, g) ↦ elim (Option-cases (w.put key val m.global_bans)) [
        | inl n ↦ rw (apply_global, f, g, n) t
        | inr (bans, o) ↦ rw (apply_global, f, g, o) (with_bans m bans m.src_bans t)
      ]
    ]
  ]

  scoped-IsTargets :
      (law : IsMapWriter w) (p : BanPayload) (val : Text) (m : BanMaps C)
      → m.next_target_id + 1 < 2 ^ 32
      → IsTargets w m
      → IsTargets w (apply_scoped w p val m).0
  unfolding apply_scoped
  scoped-IsTargets law p val m k t = go (parse_addr p.scoped_target) refl
    where
      written :
          (a : ℕ)
          → parse_addr p.scoped_target ≡ some (v4 a)
          → (r : Result Failure ℕ) → (ensure_target w a m).1 ≡ r
          → IsTargets w (ensure_target w a m).0
          → IsTargets w (apply_scoped w p val m).0
      written a e (err x) f u = rw (apply_scoped, e, f) u
      written a e (ok tid) f u = rw (apply_scoped, e, f) (with_bans (ensure_target w a m).0 _ _ u)

      go :
          (o : Option Addr)
          → parse_addr p.scoped_target ≡ o
          → IsTargets w (apply_scoped w p val m).0
      go none e = rw (apply_scoped, e) t
      go (some (v6 a z)) e = rw (apply_scoped, e) t
      go (some (v4 a)) e =
          written a e (ensure_target w a m).1 refl
            ((ensure_target-IsTargets law a m (parse_addr-v4_lt p.scoped_target a e) k t).0)

  -- Carrying out any payload keeps the numbers of the targets distinct and the kernel in step with
  -- them, while there are numbers left.
  pub apply-IsTargets :
      (law : IsMapWriter w) (p : BanPayload) (now : ℕ) (m : BanMaps C)
      → m.next_target_id + 1 < 2 ^ 32
      → IsTargets w m
      → IsTargets w (apply w p now m).0
  unfolding apply
  apply-IsTargets law p now m k t = elim (Bool-cases (is_empty p.scoped_target)) [
    | inl e ↦ rw (apply, e) (global-IsTargets p (ban_value p now m) m t)
    | inr e ↦ rw (apply, e) (scoped-IsTargets law p (ban_value p now m) m k t)
  ]
