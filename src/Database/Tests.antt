-- ===== src/Database/Tests.antt =====
-- The theorems on the usage check at a table of one license of each type.
use security_addon.Base.{
  ℕ, ◌+◌, ◌-◌, ◌≤◌, ◌<◌, min, ◌≡◌, refl, ◌≢◌, true, some, [], ◌∷◌, arith, length,
}
use security_addon.Base.{codes, equal}
use security_addon.Base.Int.{ℤ, pos, negsuc, to_int32}
use security_addon.Status.{ok}
use mathlib.Core.Option as Opt
use security_addon.Database.{
  Row, Table, Calls, select_row, check_license_usage, check_type, counted,
}
use security_addon.Database.Usage.{
  HasUses, Answers, validate_all, validate_all-HasUses, validate_all-Answers,
}
use security_addon.Database.Concurrent.{
  update, counted_by, System, Reach, here, next, select, start, Reach-grants,
  last_use_granted_twice,
}

abbrev calls : Calls
calls = record {
  opens = true;
  prepares = true;
  steps = true;
  update_prepares = true;
  update_steps = true;
  gmtime = true;
  seconds_left = λ _. negsuc 4;
  allocates = λ _. true;
  rsize_max_str = 4096;
}

abbrev license_row : ℤ → Row
license_row kind = record {
  customer_license_id = 1;
  license_guid = codes "G";
  model_guid = codes "M";
  customer_primary_certificate = some (codes "C");
  customer_secondary_certificate = some (codes "D");
  customer_license_blob = some (codes "B");
  license_type = kind;
  usage_count = pos 1;
  time_limit = some (codes "T");
}

abbrev table : ℤ → Table
table kind = license_row kind ∷ []

answers : Answers calls
answers = record {
  opens = refl;
  prepares = refl;
  steps = refl;
  update_prepares = refl;
  update_steps = refl;
  gmtime = refl;
}

found : (kind : ℤ) → select_row (codes "G") (codes "M") (table kind) ≡ some (license_row kind)
unfolding select_row equal
found kind = refl

has_use : HasUses (codes "G") (codes "M") 1 (table (pos 1))
has_use = record {
  row = license_row (pos 1);
  found = found (pos 1);
  is_counted = refl;
  left = refl;
}

validate_all-HasUses_example :
    let (k, t') = validate_all (calls ∷ calls ∷ []) (codes "G") (codes "M") (table (pos 1)) in
    (k ≤ 1) × HasUses (codes "G") (codes "M") (1 - k) t'
validate_all-HasUses_example =
    validate_all-HasUses (calls ∷ calls ∷ []) (codes "G") (codes "M") 1 (table (pos 1)) has_use

validate_all-Answers_example :
    (validate_all (calls ∷ calls ∷ []) (codes "G") (codes "M") (table (pos 1))).0
    ≡ min 1 (length (calls ∷ calls ∷ []))
validate_all-Answers_example =
    validate_all-Answers (calls ∷ calls ∷ []) (codes "G") (codes "M") 1 (table (pos 1))
      (omega arith) (answers, (answers, tt)) has_use

pos_ne : {m n : ℕ} → m ≢ n → pos m ≢ pos n
pos_ne {m} {n} h e = let same : m ≡ n = cc in h same

selects : check_license_usage calls (table (pos 1)) (codes "G") (codes "M") ≡ ok counted
unfolding check_license_usage check_type select_row equal to_int32
selects = refl

-- One check selects, and counts.
abbrev selected : System
selected = record { table = table (pos 1); pending = 1; grants = 0 }

Reach-grants_example : (counted_by calls (codes "G") (codes "M") selected).grants < 1 + 2
Reach-grants_example =
    Reach-grants 2 (omega arith) (codes "G") (codes "M") 1 (omega arith) has_use (
      next (next here (select calls (start (table (pos 1))) (omega arith) selects))
        (update calls selected (omega arith)))

last_use_granted_twice_example :
    (s : System) × Reach 2 (codes "G") (codes "M") (start (table (pos 1))) s
    × (s.grants ≡ 2)
    × (Opt.map (λ row. row.usage_count) (select_row (codes "G") (codes "M") s.table)
        ≡ some (negsuc 0))
last_use_granted_twice_example =
    last_use_granted_twice calls (codes "G") (codes "M") (table (pos 1)) answers has_use
