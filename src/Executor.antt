-- ===== src/Executor.antt =====
-- cmd/xdpban/executor.go: writing bans into the three eBPF maps, and taking them back.
-- The maps belong to the kernel: their operations are the record `MapWriter`, and what the program
-- relies on is `IsMapWriter`. Log lines are left out.
pub mod Targets
pub mod Writes
pub mod Scoped
pub mod Loop
pub mod Settling
pub mod Reconcile
pub mod Drift
pub mod Runs
use xdp_invisible_armor.Common.{
  ℕ, ◌+◌, ◌%◌, ◌^◌, ◌≡◌, ◌≢◌, Bool, true, false, if◌then◌else◌, List, [], ◌∷◌, Option, none, some,
  Text, text_eq, is_empty, Result, ok, err, Map, lookup, insert,
}
use xdp_invisible_armor.Netip.{Addr, v4, v6, Prefix, value, parse_addr, v4_text, v4_prefix_text}
use xdp_invisible_armor.Banmap.{
  Error, Value, encode_value, encode_global_key, decode_global_key, encode_src_key,
  encode_target_key, encode_target_id, ktime_deadline, parse_ipv4_prefix,
}
use xdp_invisible_armor.Model.{
  BanPayload, Failure, bad_prefix, global_write, bad_target_host, target_not_v4, target_write,
  source_prefix, source_write,
}

pub data Removal (C : Type 0) : Type 0 where
  removed : C → Removal C
  missing failed : Removal C

-- The interface `mapWriter`, on a content `C`. `put` gives no content where it fails; `entries` is
-- what `Iterate` runs through.
pub record MapWriter (C : Type 0) : Type 0 where
  pub put : Text → Text → C → Option C
  pub remove : Text → C → Removal C
  pub entries : C → Map Text

-- What the kernel documents of its maps.
pub record IsMapWriter {C : Type 0} (w : MapWriter C) : Type 0 where
  pub put-same : (k v : Text) (c d : C) → w.put k v c ≡ some d → lookup k (w.entries d) ≡ some v
  pub put-other :
      (j k v : Text) (c d : C)
      → w.put k v c ≡ some d
      → text_eq j k ≡ false
      → lookup j (w.entries d) ≡ lookup j (w.entries c)
  pub remove-same : (k : Text) (c d : C) → w.remove k c ≡ removed d → lookup k (w.entries d) ≡ none
  pub remove-other :
      (j k : Text) (c d : C)
      → w.remove k c ≡ removed d
      → text_eq j k ≡ false
      → lookup j (w.entries d) ≡ lookup j (w.entries c)
  pub remove-missing : (k : Text) (c : C) → w.remove k c ≡ missing → lookup k (w.entries c) ≡ none

pub record BanMaps (C : Type 0) : Type 0 where
  pub global_bans : C
  pub target_hosts : C
  pub src_bans : C
  pub boot_time : ℕ
  pub next_target_id : ℕ
  pub target_ids : Map ℕ

module _ {C : Type 0} where
  abbrev pub new_ban_maps : C → C → C → ℕ → BanMaps C
  new_ban_maps global targets src boot = record {
    global_bans = global;
    target_hosts = targets;
    src_bans = src;
    boot_time = boot;
    next_target_id = 1;
    target_ids = [];
  }

-- The value that a payload writes.
unfoldable pub ban_value : {C : Type 0} → BanPayload → ℕ → BanMaps C → Text
ban_value p now m = encode_value (record {
  expires_at = ktime_deadline m.boot_time now p.ttl_secs;
  hits = 0;
  rule_id = p.req_id % 2 ^ 32;
})

module _ {C : Type 0} (w : MapWriter C) where
  -- A target's number, given when the target is new. The address is IPv4, and its text is the key.
  unfoldable pub ensure_target : ℕ → BanMaps C → BanMaps C × Result Failure ℕ
  ensure_target addr m = elim (lookup (v4_text addr) m.target_ids) [
    | some tid ↦ (m, ok tid)
    | none ↦ elim (encode_target_key (v4 addr)) [
      | err e ↦ (m, err (bad_prefix e))
      | ok key ↦ elim (w.put key (encode_target_id m.next_target_id) m.target_hosts) [
        | none ↦ (m, err (target_write (v4_text addr)))
        | some hosts ↦ (
          record m {
            target_hosts = hosts;
            target_ids = insert (v4_text addr) m.next_target_id m.target_ids;
            next_target_id = (m.next_target_id + 1) % 2 ^ 32;
          },
          ok m.next_target_id,
        )
      ]
    ]
  ]

  -- The source prefixes of a scoped ban, one after the other; `written` counts those done.
  unfoldable pub write_prefixes : ℕ → Text → ℕ → List Text → C → C × Option Failure
  write_prefixes tid val written [] src = (src, none)
  write_prefixes tid val written (s ∷ rest) src = elim (parse_ipv4_prefix s) [
    | err e ↦ (src, some (source_prefix written e))
    | ok prefix ↦ elim (encode_src_key tid prefix) [
      | err e ↦ (src, some (source_prefix written e))
      | ok key ↦ elim (w.put key val src) [
        | none ↦ (src, some (source_write written prefix))
        | some src2 ↦ write_prefixes tid val (written + 1) rest src2
      ]
    ]
  ]

  unfoldable pub apply_scoped : BanPayload → Text → BanMaps C → BanMaps C × Option Failure
  unfolding ensure_target write_prefixes
  apply_scoped p val m = elim (parse_addr p.scoped_target) [
    | none ↦ (m, some (bad_target_host p.scoped_target))
    | some (v6 a zone) ↦ (m, some (target_not_v4 p.scoped_target))
    | some (v4 a) ↦
        let (m2, target) = ensure_target a m in
        elim target [
          | err e ↦ (m2, some e)
          | ok tid ↦
              let (src, failure) = write_prefixes tid val 0 p.prefixes m2.src_bans in
              (record m2 { src_bans = src }, failure)
        ]
  ]

  unfoldable pub apply_global : BanPayload → Text → BanMaps C → BanMaps C × Option Failure
  apply_global p val m = elim (parse_ipv4_prefix p.target) [
    | err e ↦ (m, some (bad_prefix e))
    | ok prefix ↦ elim (encode_global_key prefix) [
      | err e ↦ (m, some (bad_prefix e))
      | ok key ↦ elim (w.put key val m.global_bans) [
        | none ↦ (m, some (global_write prefix))
        | some bans ↦ (record m { global_bans = bans }, none)
      ]
    ]
  ]

  unfoldable pub apply : BanPayload → ℕ → BanMaps C → BanMaps C × Option Failure
  unfolding apply_scoped apply_global ban_value
  apply p now m =
      if is_empty p.scoped_target
      then apply_global p (ban_value p now m) m
      else apply_scoped p (ban_value p now m) m

  -- A ban that is not there counts as taken back.
  unfoldable pub revoke_global : Text → BanMaps C → BanMaps C × Option Failure
  revoke_global target m = elim (parse_ipv4_prefix target) [
    | err e ↦ (m, some (bad_prefix e))
    | ok prefix ↦ elim (encode_global_key prefix) [
      | err e ↦ (m, some (bad_prefix e))
      | ok key ↦ elim (w.remove key m.global_bans) [
        | failed ↦ (m, some (global_write prefix))
        | missing ↦ (m, none)
        | removed bans ↦ (record m { global_bans = bans }, none)
      ]
    ]
  ]

  unfoldable pub remove_prefixes : ℕ → ℕ → List Text → C → C × Option Failure
  remove_prefixes tid done [] src = (src, none)
  remove_prefixes tid done (s ∷ rest) src = elim (parse_ipv4_prefix s) [
    | err e ↦ (src, some (bad_prefix e))
    | ok prefix ↦ elim (encode_src_key tid prefix) [
      | err e ↦ (src, some (bad_prefix e))
      | ok key ↦ elim (w.remove key src) [
        | failed ↦ (src, some (source_write done prefix))
        | missing ↦ remove_prefixes tid (done + 1) rest src
        | removed src2 ↦ remove_prefixes tid (done + 1) rest src2
      ]
    ]
  ]

  unfoldable pub revoke_scoped : Text → List Text → BanMaps C → BanMaps C × Option Failure
  unfolding remove_prefixes
  revoke_scoped target_ip prefixes m = elim (parse_addr target_ip) [
    | none ↦ (m, some (bad_target_host target_ip))
    | some (v6 a zone) ↦ (m, some (target_not_v4 target_ip))
    | some (v4 a) ↦ elim (lookup (v4_text a) m.target_ids) [
      | none ↦ (m, none)
      | some tid ↦
          let (src, failure) = remove_prefixes tid 0 prefixes m.src_bans in
          (record m { src_bans = src }, failure)
    ]
  ]

-- The texts of the prefixes of the global map, in the order of the iteration.
unfoldable pub decode_keys : Map Text → Result Error (List Text)
decode_keys [] = ok []
decode_keys ((key, val) ∷ rest) =
    let more = decode_keys rest in
    elim (decode_global_key key) [
      | err e ↦ err e
      | ok prefix ↦ elim more [
        | err e ↦ err e
        | ok texts ↦ ok (v4_prefix_text (value prefix.addr) prefix.bits ∷ texts)
      ]
    ]

unfoldable pub list_global_bans : {C : Type 0} → MapWriter C → BanMaps C → Result Error (List Text)
unfolding decode_keys
list_global_bans w m = decode_keys (w.entries m.global_bans)
