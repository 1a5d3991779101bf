-- ===== src/Session/Runs.antt =====
-- Sessions at concrete times.
use xdp_invisible_armor.Common.{
  ◌+◌, ◌≤◌, ◌<◌, ◌≡◌, refl, arith, List, [], ◌∷◌, All, none, some, Text, text_eq, codes, lookup,
  IsMap,
}
use xdp_invisible_armor.Session.{Store, new_store, put, get, Request, other_method}
use xdp_invisible_armor.Session.Lifetime.{
  Event, on_put, on_get, on_delete_by_user, on_reap, Spares, run, put-lifetime,
}

abbrev ours : Text
ours = codes "t1"

abbrev theirs : Text
theirs = codes "t2"

abbrev busy : List Event
busy = on_put theirs 8 (codes "c2") 120 ∷ on_get theirs 150 ∷ on_delete_by_user 8 ∷ on_reap 200 ∷ []

busy-Spares :
    All (Spares ours (record { user_id = 7; expires_at = 100 + 600; csrf_token = codes "c1" })) busy
unfolding text_eq
busy-Spares = (refl, (omega arith, (λ e. ground arith, (omega arith, tt))))

put-lifetime_example :
    (650 ≤ 100 + 600
      → (get ours 650 (run busy (put ours 7 (codes "c1") 100 (new_store 600)))).0 ≡ some 7)
    × (100 + 600 < 650
        → ((get ours 650 (run busy (put ours 7 (codes "c1") 100 (new_store 600)))).0 ≡ none)
          × (lookup ours
                (get ours 650 (run busy (put ours 7 (codes "c1") 100 (new_store 600)))).1.sessions
              ≡ none))
put-lifetime_example = put-lifetime (new_store 600) ours 7 (codes "c1") 100 busy 650 tt busy-Spares

abbrev two : Store
two = record {
  ttl = 600;
  sessions =
      (ours, record { user_id = 7; expires_at = 700; csrf_token = codes "c1" })
      ∷ (theirs, record { user_id = 8; expires_at = 300; csrf_token = codes "c2" })
      ∷ [];
}

two-IsMap : IsMap two.sessions
unfolding text_eq
two-IsMap = (refl, (refl, tt))

abbrev form : Request
form = record { method = other_method; sid = some ours; csrf_field = codes "c1" }
