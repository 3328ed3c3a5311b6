-- ===== src/Database/Lookup.antt =====
-- Rows under `select` and `update`, and the texts that the getters hand out.
use security_addon.Base.{◌≡◌, refl, true, false, ◌&&◌, some, [], ◌∷◌, arith, Bytes}
use mathlib.Core.Option
use security_addon.Base.{equal, equal_iff}
use security_addon.Base.Int.{pos, ◌-ℤ◌}
use security_addon.Database.{Row, Table, is_licensed, select_row, decrement_usage}

-- A row with one use less.
abbrev pub used : Row → Row
used row = record row { usage_count = row.usage_count -ℤ pos 1 }

pub select_row-is_licensed :
    (l m : Bytes) (t : Table) {row : Row} → select_row l m t ≡ some row → is_licensed l m row ≡ true
unfolding select_row
select_row-is_licensed l m [] h = cc
select_row-is_licensed l m (r ∷ t) {row} h =
    ground (arith, select_row-is_licensed l m t {row = row})

-- The update counts down the row that the select gives.
pub select_row-decrement_usage :
    (l m : Bytes) (t : Table)
    → select_row l m (decrement_usage l m t) ≡ Option.map used (select_row l m t)
unfolding select_row decrement_usage
select_row-decrement_usage l m [] = refl
select_row-decrement_usage l m (r ∷ t) = ground (arith, select_row-decrement_usage l m t)

-- The update of one license leaves the row that the select gives for any other one as it was.
pub select_row-decrement_usage_ne :
    (l m l' m' : Bytes) (t : Table)
    → (equal l l' && equal m m') ≡ false
    → select_row l' m' (decrement_usage l m t) ≡ select_row l' m' t
unfolding select_row decrement_usage
select_row-decrement_usage_ne l m l' m' [] h = refl
select_row-decrement_usage_ne l m l' m' (r ∷ t) h = ground (
  arith,
  select_row-decrement_usage_ne l m l' m' t h,
  equal_iff r.license_guid l,
  equal_iff r.license_guid l',
  equal_iff r.model_guid m,
  equal_iff r.model_guid m',
  equal_iff l l',
  equal_iff m m',
)
