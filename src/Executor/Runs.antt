-- ===== src/Executor/Runs.antt =====
-- The executor at concrete payloads, on a hash map of at most eight entries.
use xdp_invisible_armor.Common.{
  ℕ, ◌≡◌, inl, inr, refl, sym, ◌∙◌, arith, some_inj, false, ltb, if◌then◌else◌, List, [], ◌∷◌,
  length, ◌++◌, drop, Option, none, some, Bool-cases, Text, codes, pos, Map, lookup, insert, erase,
  lookup-insert, lookup-insert_other, lookup-erase, lookup-erase_other, as4, le_bytes,
}
use mathlib.Core.Path.{subst}
use xdp_invisible_armor.Model.{BanPayload, DispatchState, pending, acked, Dispatch}
use xdp_invisible_armor.Executor.{
  Removal, removed, missing, MapWriter, IsMapWriter, BanMaps, new_ban_maps, apply,
}
use xdp_invisible_armor.Executor.Targets.{IsTargets, apply-IsTargets}
use xdp_invisible_armor.Executor.Loop.{
  Faults, Node, pending_rows, batch_size, IsTable, poll_and_execute,
}
use xdp_invisible_armor.Executor.Settling.{poll_and_execute-pending}

abbrev pub taken : Option Text → Text → Map Text → Removal (Map Text)
taken none k c = missing
taken (some v) k c = removed (erase k c)

abbrev pub small : MapWriter (Map Text)
small = record {
  put = λ k v c. if ltb (length c) 8 then some (insert k v c) else none;
  remove = λ k c. taken (lookup k c) k c;
  entries = λ c. c;
}

put_form :
    (k v : Text) (c d : Map Text)
    → (if ltb (length c) 8 then some (insert k v c) else none) ≡ some d
    → insert k v c ≡ d
put_form k v c d e = elim (Bool-cases (ltb (length c) 8)) [
  | inl h ↦ some_inj (sym (rw h refl) ∙ e)
  | inr h ↦ absurd (ground (arith, h))
]

taken-removed :
    (o : Option Text) (k : Text) (c d : Map Text) → taken o k c ≡ removed d → erase k c ≡ d
taken-removed none k c d e = absurd (ground arith)
taken-removed (some v) k c d e = cc

taken-missing : (o : Option Text) (k : Text) (c : Map Text) → taken o k c ≡ missing → o ≡ none
taken-missing none k c e = refl
taken-missing (some v) k c e = absurd (ground arith)

pub small-IsMapWriter : IsMapWriter small
small-IsMapWriter = record {
  put-same =
      λ k v c d e. subst (λ x. lookup k x ≡ some v) (put_form k v c d e) (lookup-insert k v c);
  put-other = λ j k v c d e h.
      subst (λ x. lookup j x ≡ lookup j c) (put_form k v c d e) (lookup-insert_other j k v c h);
  remove-same = λ k c d e.
      subst (λ x. lookup k x ≡ none) (taken-removed (lookup k c) k c d e) (lookup-erase k c);
  remove-other = λ j k c d e h.
      subst (λ x. lookup j x ≡ lookup j c) (taken-removed (lookup k c) k c d e)
        (lookup-erase_other j k c h);
  remove-missing = λ k c e. taken-missing (lookup k c) k c e;
}

abbrev fresh : BanMaps (Map Text)
fresh = new_ban_maps [] [] [] 1000

fresh-IsTargets : IsTargets small fresh
fresh-IsTargets = record {
  numbering = ((λ k v e. absurd (ground arith)), (λ j k v e f. absurd (ground arith)));
  installed = λ a tid h e. absurd (ground arith);
}

abbrev payload : Text → Text → List Text → BanPayload
payload target scoped_target prefixes = record {
  target = target;
  ttl_secs = pos 600;
  node_id = codes "local";
  req_id = 7;
  ban_id = codes "ban-7";
  backend = codes "xdp";
  reason = [];
  scoped_target = scoped_target;
  prefixes = prefixes;
}

abbrev scoped_ban : BanPayload
scoped_ban = payload [] (codes "192.168.0.1") (codes "203.0.113.0/24" ∷ [])

apply-IsTargets_example : IsTargets small (apply small scoped_ban 5000 fresh).0
apply-IsTargets_example =
    apply-IsTargets small small-IsMapWriter scoped_ban 5000 fresh (omega arith) fresh-IsTargets

abbrev global_ban : BanPayload
global_ban = payload (codes "203.0.113.0/24") [] []

abbrev two_prefixes : List Text
two_prefixes = codes "203.0.113.0/24" ∷ codes "nonsense" ∷ []

abbrev row : ℕ → DispatchState → Dispatch
row id state = record {
  id = id;
  ban_request_id = id;
  ban_id = codes "ban";
  node_id = codes "local";
  payload = some global_ban;
  state = state;
  last_error = none;
  attempts = 0;
  acked_at = none;
  created_at = 100;
}

abbrev node : Node (Map Text)
node = record { maps = fresh; dispatches = row 1 acked ∷ row 2 pending ∷ []; audit = [] }

abbrev no_faults : Faults
no_faults = record { find_fails = false; update_fails = λ id. false; audit_fails = λ id. false }

node-IsTable : IsTable node.dispatches
node-IsTable = (((λ e. ground arith), tt), (tt, tt))

poll_and_execute-pending_example :
    IsTable (poll_and_execute small no_faults (λ id. 5000) node).dispatches
    × (pending_rows (poll_and_execute small no_faults (λ id. 5000) node).dispatches
        ≡ drop batch_size (pending_rows node.dispatches))
poll_and_execute-pending_example =
    poll_and_execute-pending small no_faults (λ id. 5000) node refl (λ id. refl) node-IsTable

abbrev banned : BanMaps (Map Text)
banned = record fresh { global_bans = (le_bytes 4 32 ++ as4 0x0a000001, codes "v") ∷ [] }
