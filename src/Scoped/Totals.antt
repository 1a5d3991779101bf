-- ===== src/Scoped/Totals.antt =====
-- Sums over the table of scoped bans, and how a changed row changes them.
use xdp_invisible_armor.Common.{
  ℕ, ◌+◌, ◌≤◌, ◌≡◌, refl, sym, ap, ◌∙◌, arith, false, ◌==◌, ==_iff, ltb, List, [], ◌∷◌, ◌++◌, All,
  All-append, some, inl, inr, Bool-cases,
}
use mathlib.Core.Path.{subst}
use xdp_invisible_armor.Model.{ScopedBan}
use xdp_invisible_armor.Scoped.{find_scoped, update_scoped}
use xdp_invisible_armor.Scoped.Creation.{fresh_scoped}

abbrev pub total : (ScopedBan → ℕ) → List ScopedBan → ℕ
total w [] = 0
total w (b ∷ bs) = w b + total w bs

-- No two bans share a primary key.
abbrev pub AreDistinct : List ScopedBan → Type 0
AreDistinct [] = Unit
AreDistinct (b ∷ bs) = All (λ (x : ScopedBan). (x.id == b.id) ≡ false) bs × AreDistinct bs

pub total-append :
    (w : ScopedBan → ℕ) (bs cs : List ScopedBan) → total w (bs ++ cs) ≡ total w bs + total w cs
total-append w [] cs = omega arith
total-append w (b ∷ bs) cs = omega (arith, total-append w bs cs)

untouched :
    (w : ScopedBan → ℕ) (f : ScopedBan → ScopedBan) (id : ℕ) (bs : List ScopedBan)
    → All (λ (x : ScopedBan). (x.id == id) ≡ false) bs
    → total w (update_scoped id f bs) ≡ total w bs
untouched w f id [] h = refl
untouched w f id (b ∷ bs) h = rw (h.0) (ap (λ n. w b + n) (untouched w f id bs h.1))

-- The row that is found is exchanged for the new one.
pub total-update :
    (w : ScopedBan → ℕ) (f : ScopedBan → ScopedBan) (id : ℕ) (bs : List ScopedBan) (b : ScopedBan)
    → AreDistinct bs
    → find_scoped id bs ≡ some b
    → total w (update_scoped id f bs) + w b ≡ total w bs + w (f b)
total-update w f id [] b d e = absurd (ground arith)
total-update w f id (x ∷ bs) b d e = elim (Bool-cases (x.id == id)) [
  | inl here ↦ ground (
    arith,
    here,
    subst (λ n. total w (update_scoped n f bs) ≡ total w bs) ((==_iff x.id id).0 here)
        (untouched w f x.id bs d.0),
    e,
  )
  | inr there ↦ ground (arith, there, total-update w f id bs b d.1 (sym (rw there refl) ∙ e))
]

keeps-others :
    (f : ScopedBan → ScopedBan) (id n : ℕ) (bs : List ScopedBan)
    → ((b : ScopedBan) → (f b).id ≡ b.id)
    → All (λ (x : ScopedBan). (x.id == n) ≡ false) bs
    → All (λ (x : ScopedBan). (x.id == n) ≡ false) (update_scoped id f bs)
keeps-others f id n [] k h = tt
keeps-others f id n (b ∷ bs) k h = elim (Bool-cases (b.id == id)) [
  | inl e ↦ rw (e, k b) (h.0, keeps-others f id n bs k h.1)
  | inr e ↦ rw e (h.0, keeps-others f id n bs k h.1)
]

-- A change that keeps primary keys keeps them distinct.
pub AreDistinct-update :
    (f : ScopedBan → ScopedBan) (id : ℕ) (bs : List ScopedBan)
    → ((b : ScopedBan) → (f b).id ≡ b.id)
    → AreDistinct bs
    → AreDistinct (update_scoped id f bs)
AreDistinct-update f id [] k d = tt
AreDistinct-update f id (b ∷ bs) k d = elim (Bool-cases (b.id == id)) [
  | inl e ↦ rw (e, k b) (keeps-others f id b.id bs k d.0, AreDistinct-update f id bs k d.1)
  | inr e ↦ rw e (keeps-others f id b.id bs k d.0, AreDistinct-update f id bs k d.1)
]

fresh-differs :
    (bs : List ScopedBan) (n : ℕ)
    → fresh_scoped bs ≤ n
    → All (λ (x : ScopedBan). (n == x.id) ≡ false) bs
fresh-differs [] n h = tt
fresh-differs (b ∷ bs) n h = elim (Bool-cases (ltb b.id (fresh_scoped bs))) [
  | inl e ↦ (ground (arith, e), fresh-differs bs n (ground (arith, e)))
  | inr e ↦ (ground (arith, e), fresh-differs bs n (ground (arith, e)))
]

AreDistinct-append :
    (bs : List ScopedBan) (c : ScopedBan)
    → AreDistinct bs
    → All (λ (x : ScopedBan). (c.id == x.id) ≡ false) bs
    → AreDistinct (bs ++ c ∷ [])
AreDistinct-append [] c d h = (tt, tt)
AreDistinct-append (b ∷ bs) c d h = (
  All-append (λ (x : ScopedBan). (x.id == b.id) ≡ false) bs (c ∷ []) d.0 (h.0, tt),
  AreDistinct-append bs c d.1 h.1,
)

-- A new row has a primary key of its own.
pub AreDistinct-fresh :
    (bs : List ScopedBan) (c : ScopedBan)
    → AreDistinct bs
    → c.id ≡ fresh_scoped bs
    → AreDistinct (bs ++ c ∷ [])
AreDistinct-fresh bs c d e =
    AreDistinct-append bs c d (rw e (fresh-differs bs (fresh_scoped bs) (omega arith)))

pub find-update :
    (f : ScopedBan → ScopedBan) (id : ℕ) (bs : List ScopedBan) (b : ScopedBan)
    → ((c : ScopedBan) → (f c).id ≡ c.id)
    → find_scoped id bs ≡ some b
    → find_scoped id (update_scoped id f bs) ≡ some (f b)
find-update f id [] b k e = absurd (ground arith)
find-update f id (x ∷ bs) b k e = elim (Bool-cases (x.id == id)) [
  | inl here ↦ ground (arith, here, k x, e)
  | inr there ↦ ground (arith, there, find-update f id bs b k (sym (rw there refl) ∙ e))
]

-- One row weighs no more than all of them.
pub weight-le-total :
    (w : ScopedBan → ℕ) (id : ℕ) (bs : List ScopedBan) (b : ScopedBan)
    → find_scoped id bs ≡ some b
    → w b ≤ total w bs
weight-le-total w id [] b e = absurd (ground arith)
weight-le-total w id (x ∷ bs) b e = elim (Bool-cases (x.id == id)) [
  | inl here ↦ ground (arith, here, e)
  | inr there ↦ omega (arith, weight-le-total w id bs b (sym (rw there refl) ∙ e))
]
