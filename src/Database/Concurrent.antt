-- ===== src/Database/Concurrent.antt =====
-- The usage check of several threads at once. The server runs a thread for each client, and the
-- `select` and the `update` of ovsa_db_validate_license_usage are two statements with no
-- transaction round them, so the statements of several checks interleave.
use security_addon.Base.{
  ℕ, ◌+◌, ◌-◌, ◌^◌, ◌≤◌, ◌<◌, ◌≡◌, refl, ap, ◌∙◌, ◌⊎◌, inl, inr, false, ◌&&◌, some, arith, Bytes,
  Bool-cases,
}
use mathlib.Core.Option as Opt
use security_addon.Base.{equal}
use security_addon.Base.Int.{
  ℤ, pos, negsuc, pos_part, neg_part, ◌-ℤ◌, -ℤ_parts, to_int32, to_int32-pos, to_int32_sign,
}
use security_addon.Status.{ok}
use security_addon.Database.{
  Row, Table, Calls, counted, select_row, decrement_usage, check_license_usage, count_license_usage,
  check_type,
}
use security_addon.Database.Lookup.{used, select_row-decrement_usage, select_row-decrement_usage_ne}
use security_addon.Database.Usage.{HasUses, granted, Answers}

-- The table, the checks of one license that have found a use and not yet counted it, and the
-- checks that were granted.
pub record System : Type 0 where
  pub table : Table
  pub pending : ℕ
  pub grants : ℕ

abbrev pub counted_by : Calls → Bytes → Bytes → System → System
counted_by c l m s =
    let (r, t) = count_license_usage c s.table l m in
    record { table = t; pending = s.pending - 1; grants = s.grants + granted r }

-- One statement of one of the `threads` threads; the last constructor is the update of a check of
-- another license. A select that grants nothing changes nothing.
pub data Step (threads : ℕ) (l m : Bytes) : System → System → Type 0 where
  select :
      (c : Calls) (s : System)
      → s.pending < threads
      → check_license_usage c s.table l m ≡ ok counted
      → Step threads l m s (record s { pending = s.pending + 1 })
  update : (c : Calls) (s : System) → 0 < s.pending → Step threads l m s (counted_by c l m s)
  update_other :
      (c : Calls) (l' m' : Bytes) (s : System)
      → (equal l' l && equal m' m) ≡ false
      → Step threads l m s (record s { table = (count_license_usage c s.table l' m').1 })

pub data Reach (threads : ℕ) (l m : Bytes) (s : System) : System → Type 0 where
  here : Reach threads l m s s
  next : {t u : System} → Reach threads l m s t → Step threads l m t u → Reach threads l m s u

abbrev pub start : Table → System
start t = record { table = t; pending = 0; grants = 0 }

-- The grants are what the count has lost, below zero too; and a select grants only what it sees.
record Inv (threads : ℕ) (l m : Bytes) (n : ℕ) (s : System) : Type 0 where
  row : Row
  found : select_row l m s.table ≡ some row
  is_counted : row.license_type ≡ pos 1
  balance : pos_part row.usage_count + s.grants ≡ n + neg_part row.usage_count
  bounded : s.grants + s.pending < n + threads

-- The update fails and changes nothing, or counts one use.
count-cases :
    (c : Calls) (t : Table) (l m : Bytes)
    → ((count_license_usage c t l m).1 ≡ t) × (granted (count_license_usage c t l m).0 ≡ 0)
      ⊎ ((count_license_usage c t l m).1 ≡ decrement_usage l m t)
        × (granted (count_license_usage c t l m).0 ≡ 1)
unfolding count_license_usage
count-cases c t l m = elim (Bool-cases c.update_prepares) [
  | inr bad ↦ rw bad (inl (refl, refl))
  | inl good ↦ rw good (elim (Bool-cases c.update_steps) [
    | inr bad ↦ rw bad (inl (refl, refl))
    | inl steps ↦ rw steps (inr (refl, refl))
  ])
]

select-positive :
    (c : Calls) (l m : Bytes) (t : Table) {row : Row}
    → select_row l m t ≡ some row
    → row.license_type ≡ pos 1
    → neg_part row.usage_count ≤ 2 ^ 31
    → check_license_usage c t l m ≡ ok counted
    → (0 < pos_part row.usage_count) × (neg_part row.usage_count ≡ 0)
unfolding check_license_usage check_type
select-positive c l m t {row} found is_counted small h =
    ground (arith, to_int32_sign row.usage_count small)

-- A count that is the uses less the grants is not far below zero.
neg_bound :
    (z : ℤ) (n grants threads : ℕ)
    → pos_part z + grants ≡ n + neg_part z
    → grants < n + threads
    → neg_part z ≤ threads
neg_bound (pos k) n grants threads balance bounded = omega arith
neg_bound (negsuc k) n grants threads balance bounded = omega (arith, balance, bounded)

module _ (threads : ℕ) (few : threads < 2 ^ 31) (l m : Bytes) (n : ℕ) where
  Step-Inv : {s t : System} → Step threads l m s t → Inv threads l m n s → Inv threads l m n t
  Step-Inv (select c s room h) i =
      let below : neg_part i.row.usage_count ≤ 2 ^ 31 = omega (
        arith,
        few,
        neg_bound i.row.usage_count n s.grants threads i.balance (omega (arith, i.bounded)),
      ) in
      record {
        row = i.row;
        found = i.found;
        is_counted = i.is_counted;
        balance = i.balance;
        bounded =
            omega (arith, select-positive c l m s.table i.found i.is_counted below h, i.balance);
      }
  Step-Inv (update c s some_pending) i = elim (count-cases c s.table l m) [
    | inl (same, none_granted) ↦ record {
      row = i.row;
      found = rw same i.found;
      is_counted = i.is_counted;
      balance = omega (arith, none_granted, i.balance);
      bounded = omega (arith, none_granted, i.bounded);
    }
    | inr (less, one_granted) ↦ record {
      row = used i.row;
      found = rw less (select_row-decrement_usage l m s.table ∙ ap (Opt.map used) i.found);
      is_counted = i.is_counted;
      balance = omega (arith, one_granted, i.balance, -ℤ_parts i.row.usage_count (pos 1));
      bounded = omega (arith, one_granted, i.bounded);
    }
  ]
  Step-Inv (update_other c l' m' s other) i = elim (count-cases c s.table l' m') [
    | inl (same, _) ↦ record {
      row = i.row;
      found = rw same i.found;
      is_counted = i.is_counted;
      balance = i.balance;
      bounded = i.bounded;
    }
    | inr (less, _) ↦ record {
      row = i.row;
      found = rw less (select_row-decrement_usage_ne l' m' l m s.table other ∙ i.found);
      is_counted = i.is_counted;
      balance = i.balance;
      bounded = i.bounded;
    }
  ]

  Reach-Inv : {s t : System} → Inv threads l m n s → Reach threads l m s t → Inv threads l m n t
  Reach-Inv i here = i
  Reach-Inv i (next r st) = Step-Inv st (Reach-Inv i r)

  -- However the statements of one or more threads interleave, a license with `n` uses left is granted
  -- fewer than `n + threads` times; there are fewer than 2 ^ 31 threads.
  pub Reach-grants :
      {t : Table} {s : System}
      → 0 < threads
      → HasUses l m n t
      → Reach threads l m (start t) s
      → s.grants < n + threads
  Reach-grants {t} some_threads h r =
      let i =
        Reach-Inv
          (record {
            row = h.row;
            found = h.found;
            is_counted = h.is_counted;
            balance = rw h.left (omega arith);
            bounded = omega arith;
          })
          r in
      omega (arith, i.bounded)

count_license_usage-Answers :
    (c : Calls) (t : Table) (l m : Bytes)
    → Answers c
    → count_license_usage c t l m ≡ (ok tt, decrement_usage l m t)
unfolding count_license_usage
count_license_usage-Answers c t l m a = ground arith

counted-Answers :
    (c : Calls) (l m : Bytes) (t : Table)
    → Answers c
    → HasUses l m 1 t
    → check_license_usage c t l m ≡ ok counted
unfolding check_license_usage check_type
counted-Answers c l m t a h =
    let one_left : to_int32 (pos 1) ≡ pos 1 = to_int32-pos 1 (omega arith) in ground arith

-- Where SQLite answers every call, a license with one use left is granted twice to two threads that
-- both select before either counts, and its count is then -1.
pub last_use_granted_twice :
    (c : Calls) (l m : Bytes) (t : Table)
    → Answers c
    → HasUses l m 1 t
    → (s : System) × Reach 2 l m (start t) s
      × (s.grants ≡ 2)
      × (Opt.map (λ row. row.usage_count) (select_row l m s.table) ≡ some (negsuc 0))
last_use_granted_twice c l m t a h = (
  s4,
  next
      (next (next (next here (select c s0 (omega arith) seen)) (select c s1 (omega arith) seen))
        (update c s2 (omega arith)))
      (update c s3 (omega arith)),
  rw (count_license_usage-Answers c t l m a)
      (rw (count_license_usage-Answers c (decrement_usage l m t) l m a)),
  rw (count_license_usage-Answers c t l m a) (
      rw (count_license_usage-Answers c (decrement_usage l m t) l m a) (
        rw
          (
            select_row-decrement_usage l m (decrement_usage l m t),
            select_row-decrement_usage l m t,
            h.found,
          )
          (rw h.left (unfold ◌-ℤ◌ in refl)))),
)
  where
    seen : check_license_usage c t l m ≡ ok counted
    seen = counted-Answers c l m t a h

    s0 : System
    s0 = start t

    s1 : System
    s1 = record { table = t; pending = 1; grants = 0 }

    s2 : System
    s2 = record { table = t; pending = 2; grants = 0 }

    s3 : System
    s3 = counted_by c l m s2

    s4 : System
    s4 = counted_by c l m s3
