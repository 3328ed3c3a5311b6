-- ===== src/Database/Usage.antt =====
-- The usage check of one session at a time.
use security_addon.Base.{
  ℕ, zero, suc, ◌+◌, ◌-◌, ◌^◌, ◌≤◌, ◌<◌, min, ◌≡◌, refl, ap, ◌∙◌, ◌≢◌, inl, inr, Bool, true, false,
  some, List, [], ◌∷◌, arith, if◌then◌else◌, Bytes, Bool-cases, length,
}
use security_addon.Base.Int.{ltb_ℤ, ℤ, pos, ◌-ℤ◌, to_int32-pos, to_int32_positive}
use mathlib.Core.Option as Opt
use security_addon.Status.{db_timelimt_fail, Result, ok, err, fault, ⊤}
use security_addon.Database.{
  db_timelimt_fail, Row, Table, Calls, Grant, free, counted, select_row, decrement_usage, settle,
  check_type, check_license_usage, count_license_usage, validate_license_usage,
}
use security_addon.Database.Lookup.{select_row-decrement_usage, used}

-- The license whose uses are counted has `n` of them left.
pub record HasUses (l m : Bytes) (n : ℕ) (t : Table) : Type 0 where
  pub row : Row
  pub found : select_row l m t ≡ some row
  pub is_counted : row.license_type ≡ pos 1
  pub left : row.usage_count ≡ pos n

abbrev pub is_ok {ℓ} : {A : Type ℓ} → Result A → Bool
is_ok (ok _) = true
is_ok _ = false

-- What a license with a counted use grants: the select fails, or it is granted exactly if uses are left.
pub check_license_usage-HasUses :
    (c : Calls) (l m : Bytes) (n : ℕ) (t : Table)
    → HasUses l m n t
    → is_ok (check_license_usage c t l m) ≡ true
    → (check_license_usage c t l m ≡ ok counted) × (0 < n)
unfolding check_license_usage check_type
check_license_usage-HasUses c l m n t h = ground (arith, to_int32_positive n)

pub decrement_usage-HasUses :
    (l m : Bytes) (n : ℕ) (t : Table)
    → HasUses l m (suc n) t
    → HasUses l m n (decrement_usage l m t)
unfolding ◌-ℤ◌
decrement_usage-HasUses l m n t h = record {
  row = used h.row;
  found = select_row-decrement_usage l m t ∙ ap (Opt.map used) h.found;
  is_counted = h.is_counted;
  left = rw h.left (ground arith);
}

-- 1 for a check that granted the license, 0 for one that did not.
abbrev pub granted : Result ⊤ → ℕ
granted r = if is_ok r then 1 else 0

-- What a check leaves of `n` uses: one less if it was granted, and none was granted out of none.
abbrev pub Spends : Bytes → Bytes → ℕ → Result ⊤ × Table → Type 0
Spends l m n (r, t) = (granted r ≤ n) × HasUses l m (n - granted r) t

Spends-none : {l m : Bytes} (n : ℕ) (t : Table) → HasUses l m n t → Spends l m n (fault, t)
Spends-none n t h = (omega arith, let e : n - 0 ≡ n = omega arith in rw e h)

count_license_usage-Spends :
    (c : Calls) (l m : Bytes) (n : ℕ) (t : Table)
    → HasUses l m (suc n) t
    → Spends l m (suc n) (count_license_usage c t l m)
unfolding count_license_usage
count_license_usage-Spends c l m n t h = elim (Bool-cases c.update_prepares) [
  | inr bad ↦ rw bad (Spends-none (suc n) t h)
  | inl good ↦ rw good (elim (Bool-cases c.update_steps) [
    | inr bad ↦ rw bad (Spends-none (suc n) t h)
    | inl steps ↦ rw steps (
      omega arith,
      let e : suc n - 1 ≡ n = omega arith in rw e (decrement_usage-HasUses l m n t h),
    )
  ])
]

settle-Spends :
    (g : Result Grant) (c : Calls) (l m : Bytes) (n : ℕ) (t : Table)
    → HasUses l m n t
    → (is_ok g ≡ true → (g ≡ ok counted) × (0 < n))
    → Spends l m n (settle g (count_license_usage c t l m) t)
unfolding settle
settle-Spends (ok free) c l m n t h positive = cc (positive refl).0
settle-Spends (ok counted) c l m zero t h positive = absurd (omega (arith, positive refl))
settle-Spends (ok counted) c l m (suc n) t h positive = count_license_usage-Spends c l m n t h
settle-Spends (err e) c l m n t h positive = Spends-none n t h
settle-Spends fault c l m n t h positive = Spends-none n t h

-- Whatever SQLite answers, a check of a license with `n` uses left grants none or one, none if `n` is
-- 0, and leaves in the table exactly those that were not granted.
pub validate_license_usage-Spends :
    (c : Calls) (l m : Bytes) (n : ℕ) (t : Table)
    → HasUses l m n t
    → Spends l m n (validate_license_usage c t l m)
unfolding validate_license_usage
validate_license_usage-Spends c l m n t h =
    settle-Spends (check_license_usage c t l m) c l m n t h
      (check_license_usage-HasUses c l m n t h)

-- The checks of one license, one after the other: how many were granted, and the table behind them.
pub validate_all : List Calls → Bytes → Bytes → Table → ℕ × Table
validate_all [] l m t = (0, t)
validate_all (c ∷ cs) l m t =
    let (r, t') = validate_license_usage c t l m in
    let (k, t'') = validate_all cs l m t' in (granted r + k, t'')

-- However many sessions ask, one after the other, a license with `n` uses left is granted `n`
-- times at most, and the table holds what is left.
pub validate_all-HasUses :
    (cs : List Calls) (l m : Bytes) (n : ℕ) (t : Table)
    → HasUses l m n t
    → let (k, t') = validate_all cs l m t in (k ≤ n) × HasUses l m (n - k) t'
unfolding validate_all
validate_all-HasUses [] l m n t h = (omega arith, let e : n - 0 ≡ n = omega arith in rw e h)
validate_all-HasUses (c ∷ cs) l m n t h =
    let (some_left, h') = validate_license_usage-Spends c l m n t h in
    let (fits, h'') = validate_all-HasUses cs l m _ _ h' in
    let left : n
          - granted (validate_license_usage c t l m).0
          - (validate_all cs l m (validate_license_usage c t l m).1).0
        ≡ n
          - (granted (validate_license_usage c t l m).0
              + (validate_all cs l m (validate_license_usage c t l m).1).0) =
      omega arith in
    (omega arith, rw left at h'')

-- SQLite and the clock answer every call.
pub record Answers (c : Calls) : Type 0 where
  pub opens : c.opens ≡ true
  pub prepares : c.prepares ≡ true
  pub steps : c.steps ≡ true
  pub update_prepares : c.update_prepares ≡ true
  pub update_steps : c.update_steps ≡ true
  pub gmtime : c.gmtime ≡ true

abbrev pub AllAnswer : List Calls → Type 0
AllAnswer [] = Unit
AllAnswer (c ∷ cs) = Answers c × AllAnswer cs

granted-min :
    (c : Calls) (l m : Bytes) (n : ℕ) (t : Table)
    → n < 2 ^ 31
    → Answers c
    → HasUses l m n t
    → granted (validate_license_usage c t l m).0 ≡ min n 1
unfolding validate_license_usage check_license_usage check_type count_license_usage settle
granted-min c l m zero t small a h = ground (arith, to_int32-pos 0 small)
granted-min c l m (suc n) t small a h = ground (arith, to_int32-pos (suc n) small)

-- Where SQLite answers every call, a license with `n` uses left, which an int holds, is granted to as
-- many checks, one after the other, as there are, and `n` at most.
pub validate_all-Answers :
    (cs : List Calls) (l m : Bytes) (n : ℕ) (t : Table)
    → n < 2 ^ 31
    → AllAnswer cs
    → HasUses l m n t
    → (validate_all cs l m t).0 ≡ min n (length cs)
unfolding validate_all
validate_all-Answers [] l m n t small a h = omega arith
validate_all-Answers (c ∷ cs) l m n t small a h =
    let (_, h') = validate_license_usage-Spends c l m n t h in
    omega (
      arith,
      granted-min c l m n t small a.0 h,
      validate_all-Answers cs l m (n - granted (validate_license_usage c t l m).0)
          (validate_license_usage c t l m).1 (omega arith) a.1 h',
    )

check_type-free :
    (c : Calls) (row : Row) (k : ℤ) → k ≢ pos 1 → k ≢ pos 2 → check_type c row k ≡ ok free
unfolding check_type
check_type-free c row (pos zero) h1 h2 = refl
check_type-free c row (pos (suc zero)) h1 h2 = absurd (h1 refl)
check_type-free c row (pos (suc (suc zero))) h1 h2 = absurd (h2 refl)
check_type-free c row _ h1 h2 = refl

check_license_usage-Answers :
    (c : Calls) (l m : Bytes) (t : Table) {row : Row}
    → Answers c
    → select_row l m t ≡ some row
    → check_license_usage c t l m ≡ check_type c row row.license_type
unfolding check_license_usage
check_license_usage-Answers c l m t {row} a found = ground arith

-- A license of a type other than 1 and 2 is granted, and nothing is counted: also one whose type is
-- none of the three that exist. SQLite and the clock answer every call.
pub validate_license_usage-unlimited :
    (c : Calls) (l m : Bytes) (t : Table) (row : Row)
    → Answers c
    → select_row l m t ≡ some row
    → row.license_type ≢ pos 1
    → row.license_type ≢ pos 2
    → validate_license_usage c t l m ≡ (ok tt, t)
unfolding validate_license_usage settle
validate_license_usage-unlimited c l m t row a found not_counted not_timed =
    rw (check_license_usage-Answers c l m t a found)
      (rw (check_type-free c row row.license_type not_counted not_timed))

-- A license of type 2 is granted exactly while time is left, and nothing is counted. SQLite and
-- the clock answer every call.
pub validate_license_usage-timed :
    (c : Calls) (l m : Bytes) (t : Table) (row : Row) (limit : Bytes)
    → Answers c
    → select_row l m t ≡ some row
    → row.license_type ≡ pos 2
    → row.time_limit ≡ some limit
    → validate_license_usage c t l m
      ≡ (if ltb_ℤ (pos 0) (c.seconds_left limit) then ok tt else err db_timelimt_fail, t)
unfolding validate_license_usage settle
validate_license_usage-timed c l m t row limit a found timed has_limit =
    rw (check_license_usage-Answers c l m t a found) (rw timed (unfold check_type in ground arith))
