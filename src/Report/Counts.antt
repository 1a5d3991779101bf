-- ===== src/Report/Counts.antt =====
-- What the numbers of the report count, and that the file can be read back.
use xdp_invisible_armor.Common.{
  ℕ, ◌+◌, ◌≡◌, refl, sym, ap, ◌∙◌, arith, Bool, true, false, ◌&&◌, if◌then◌else◌, List, [], ◌∷◌,
  ◌++◌, map, keep, length, Result, ok, err, ok-injective, Text, drop, Bool-cases, inl, inr,
}
use mathlib.Core.Path.{subst}
use xdp_invisible_armor.Model.{
  BanState, requested, active, rejected, expired, safety_blocked, revoked, BanRequest, ScopedBan,
}
use xdp_invisible_armor.Report.{
  Filter, Row, Summary, Archive, ReadFaults, ReportError, within, order_by, insert_by,
  ban_request_row, scoped_ban_row, count_state, count_rest, tally, summarize, uncounted, rows_of,
  build, records, write_csv, no_users, no_requests, no_scoped_bans,
}
use xdp_invisible_armor.Report.Csv.Reading.{read_csv, shown, write_records-read_csv}

abbrev pub count : {A : Type 0} → (A → Bool) → List A → ℕ
count p [] = 0
count p (x ∷ xs) = (if p x then 1 else 0) + count p xs

zero_add : (n : ℕ) → 0 + n ≡ n
zero_add n = omega arith

count-append :
    {A : Type 0} (p : A → Bool) (xs ys : List A) → count p (xs ++ ys) ≡ count p xs + count p ys
count-append p [] ys = sym (zero_add (count p ys))
count-append p (x ∷ xs) ys = ground (arith, count-append p xs ys)

count-map :
    {A B : Type 0} (p : B → Bool) (f : A → B) (xs : List A)
    → count p (map f xs) ≡ count (λ x. p (f x)) xs
count-map p f [] = refl
count-map p f (x ∷ xs) = ground (arith, count-map p f xs)

count-keep :
    {A : Type 0} (p w : A → Bool) (xs : List A) → count p (keep w xs) ≡ count (λ x. w x && p x) xs
count-keep p w [] = refl
count-keep p w (x ∷ xs) = ground (arith, count-keep p w xs)

count-insert :
    {A : Type 0} (p : A → Bool) (time : A → ℕ) (a : A) (xs : List A)
    → count p (insert_by time a xs) ≡ count p (a ∷ xs)
unfolding insert_by
count-insert p time a [] = refl
count-insert p time a (x ∷ xs) = ground (arith, count-insert p time a xs)

count-order :
    {A : Type 0} (p : A → Bool) (time : A → ℕ) (xs : List A)
    → count p (order_by time xs) ≡ count p xs
unfolding order_by
count-order p time [] = refl
count-order p time (x ∷ xs) =
    count-insert p time x (order_by time xs)
    ∙ ap (λ n. (if p x then 1 else 0) + n) (count-order p time xs)

-- How many bans of the range the tables hold whose state passes a test.
abbrev pub in_tables : (BanState → Bool) → Filter → Archive → ℕ
in_tables p f a =
    count (λ (r : BanRequest). within f r.created_at && p r.state) a.requests
    + count (λ (b : ScopedBan). within f b.created_at && p b.state) a.scoped_bans

abbrev state_of : (BanState → Bool) → Row → Bool
state_of p r = p r.state

rows_of-count :
    (p : BanState → Bool) (f : Filter) (a : Archive)
    → count (state_of p) (rows_of f a) ≡ in_tables p f a
unfolding ban_request_row scoped_ban_row
rows_of-count p f a =
    count-append (state_of p) (map (ban_request_row a.users) requests)
      (map (scoped_ban_row a.users) scoped)
    ∙ ap (λ n. n + count (state_of p) (map (scoped_ban_row a.users) scoped))
        (count-map (state_of p) (ban_request_row a.users) requests
          ∙ count-order (λ (r : BanRequest). p r.state) (λ (r : BanRequest). r.created_at)
              (keep (λ (r : BanRequest). within f r.created_at) a.requests)
          ∙ count-keep (λ (r : BanRequest). p r.state) (λ (r : BanRequest). within f r.created_at)
              a.requests)
    ∙ ap (λ n. count (λ (r : BanRequest). within f r.created_at && p r.state) a.requests + n)
        (count-map (state_of p) (scoped_ban_row a.users) scoped
          ∙ count-order (λ (b : ScopedBan). p b.state) (λ (b : ScopedBan). b.created_at)
              (keep (λ (b : ScopedBan). within f b.created_at) a.scoped_bans)
          ∙ count-keep (λ (b : ScopedBan). p b.state) (λ (b : ScopedBan). within f b.created_at)
              a.scoped_bans)
  where
    requests : List BanRequest
    requests =
        order_by (λ (r : BanRequest). r.created_at)
          (keep (λ (r : BanRequest). within f r.created_at) a.requests)

    scoped : List ScopedBan
    scoped =
        order_by (λ (b : ScopedBan). b.created_at)
          (keep (λ (b : ScopedBan). within f b.created_at) a.scoped_bans)

abbrev pub was_approved : BanState → Bool
was_approved active = true
was_approved expired = true
was_approved revoked = true
was_approved _ = false

abbrev pub was_rejected : BanState → Bool
was_rejected rejected = true
was_rejected _ = false

abbrev pub was_blocked : BanState → Bool
was_blocked safety_blocked = true
was_blocked _ = false

abbrev pub is_open : BanState → Bool
is_open requested = true
is_open _ = false

abbrev pub is_any : BanState → Bool
is_any _ = true

-- The counters of a summary.
abbrev Counted : Summary → (Summary → Summary) → BanState → Type 0
Counted s step st =
    ((step s).approved ≡ s.approved + (if was_approved st then 1 else 0))
    × ((step s).rejected ≡ s.rejected + (if was_rejected st then 1 else 0))
    × ((step s).safety_blocked ≡ s.safety_blocked + (if was_blocked st then 1 else 0))
    × ((step s).total_bans ≡ s.total_bans)

count_state-Counted : (st : BanState) (s : Summary) → Counted s (count_state st) st
count_state-Counted requested s = (ground arith, ground arith, ground arith, refl)
count_state-Counted active s = (ground arith, ground arith, ground arith, refl)
count_state-Counted BanState.rejected s = (ground arith, ground arith, ground arith, refl)
count_state-Counted expired s = (ground arith, ground arith, ground arith, refl)
count_state-Counted BanState.safety_blocked s = (ground arith, ground arith, ground arith, refl)
count_state-Counted revoked s = (ground arith, ground arith, ground arith, refl)

tally-counts :
    (rs : List Row) (s : Summary)
    → ((tally rs s).approved ≡ s.approved + count (state_of was_approved) rs)
      × ((tally rs s).rejected ≡ s.rejected + count (state_of was_rejected) rs)
      × ((tally rs s).safety_blocked ≡ s.safety_blocked + count (state_of was_blocked) rs)
      × ((tally rs s).total_bans ≡ s.total_bans)
unfolding tally
tally-counts [] s = (omega arith, omega arith, omega arith, refl)
tally-counts (r ∷ rs) s =
    let (a, b, c, d) = count_state-Counted r.state s in
    let (x, y, z, w) = tally-counts rs (count_rest r (count_state r.state s)) in
    (x ∙ omega (arith, a), y ∙ omega (arith, b), z ∙ omega (arith, c), w ∙ d)

length-count : (rs : List Row) → length rs ≡ count (state_of is_any) rs
length-count [] = refl
length-count (r ∷ rs) = omega (arith, length-count rs)

split_state :
    (st : BanState)
    → ◌≡◌ {A = ℕ} 1 (
        (if was_approved st then 1 else 0)
        + (if was_rejected st then 1 else 0)
        + (if was_blocked st then 1 else 0)
        + (if is_open st then 1 else 0))
split_state requested = refl
split_state active = refl
split_state rejected = refl
split_state expired = refl
split_state safety_blocked = refl
split_state revoked = refl

split_rows :
    (rs : List Row)
    → length rs
      ≡ count (state_of was_approved) rs
        + count (state_of was_rejected) rs
        + count (state_of was_blocked) rs
        + count (state_of is_open) rs
split_rows [] = refl
split_rows (r ∷ rs) = omega (arith, split_state r.state, split_rows rs)

-- The numbers of a summary, over the tables.
abbrev pub Tells : Filter → Archive → Summary → Type 0
Tells f a s =
    (s.total_bans ≡ in_tables is_any f a)
    × (s.approved ≡ in_tables was_approved f a)
    × (s.rejected ≡ in_tables was_rejected f a)
    × (s.safety_blocked ≡ in_tables was_blocked f a)
    × (s.total_bans ≡ s.approved + s.rejected + s.safety_blocked + in_tables is_open f a)

summarize-Tells :
    (f : Filter) (a : Archive) (by : Text) (now : ℕ) → Tells f a (summarize f (rows_of f a) by now)
unfolding summarize
summarize-Tells f a by now =
    let rs = rows_of f a in
    let (x, y, z, w) = tally-counts rs (uncounted f (length rs) by now) in
    let approved = x ∙ zero_add (count (state_of was_approved) rs) in
    let turned_down = y ∙ zero_add (count (state_of was_rejected) rs) in
    let blocked = z ∙ zero_add (count (state_of was_blocked) rs) in
    let waiting = rows_of-count is_open f a in
    (
      w ∙ (length-count rs ∙ rows_of-count is_any f a),
      approved ∙ rows_of-count was_approved f a,
      turned_down ∙ rows_of-count was_rejected f a,
      blocked ∙ rows_of-count was_blocked f a,
      omega (arith, w, approved, turned_down, blocked, waiting, split_rows rs),
    )

fails≢ :
    {r : Summary × List Row} {e : ReportError}
    → ◌≡◌ {A = Result ReportError (Summary × List Row)} (err e) (ok r)
    → ⊥
fails≢ h = cc

built :
    (f : Filter) (by : Text) (now : ℕ) (a : Archive) (s : Summary) (rows : List Row)
    (faults : ReadFaults)
    → build faults f by now a ≡ ok (s, rows)
    → ◌≡◌ {A = Summary × List Row} (summarize f (rows_of f a) by now, rows_of f a) (s, rows)
unfolding build
built f by now a s rows faults h = elim (Bool-cases faults.users_fail) [
  | inl y ↦ absurd (fails≢ {e = no_users} (sym (rw (build, y) refl) ∙ h))
  | inr n ↦ elim (Bool-cases faults.requests_fail) [
    | inl y ↦ absurd (fails≢ {e = no_requests} (sym (rw (build, n, y) refl) ∙ h))
    | inr m ↦ elim (Bool-cases faults.scoped_fail) [
      | inl y ↦ absurd (fails≢ {e = no_scoped_bans} (sym (rw (build, n, m, y) refl) ∙ h))
      | inr k ↦ ok-injective (sym (rw (build, n, m, k) refl) ∙ h)
    ]
  ]
]

-- What `build` reports: as many bans as the tables hold in the range, and of them those whose state is
-- active, expired or revoked as approved, the rejected and the blocked ones; the rest are those that
-- wait for a decision. The file that `write_csv` makes of it can be read back: behind the mark of
-- its encoding, a reader of comma-separated lines finds each record as it was given.
pub build-Tells :
    (stamp : ℕ → Text) (faults : ReadFaults) (f : Filter) (by : Text) (now : ℕ) (a : Archive)
    (s : Summary) (rows : List Row)
    → build faults f by now a ≡ ok (s, rows)
    → Tells f a s × (read_csv (drop 3 (write_csv stamp s rows)) ≡ map shown (records stamp s rows))
unfolding build
build-Tells stamp faults f by now a s rows h =
    let same = built f by now a s rows faults h in
    (
      subst (λ (r : Summary × List Row). Tells f a r.0) same (summarize-Tells f a by now),
      unfold write_csv in write_records-read_csv (records stamp s rows),
    )
