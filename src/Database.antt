-- ===== src/Database.antt =====
-- License_service/src/app/db.c: the table customer_license_info, the getters and the usage check.
-- The SQL of the source runs on a list of rows; what SQLite itself answers (whether it opens the
-- file, prepares and steps a statement) and the C library's clock are parameters.

pub mod Lookup
pub mod Getters
pub mod Usage
pub mod Concurrent
pub mod Tests
use security_addon.Base.{
  ℕ, zero, suc, ◌+◌, ◌-◌, ◌*◌, ◌/◌, ◌%◌, ◌^◌, ◌≤◌, ◌<◌, min, ◌≡◌, refl, sym, ap, ◌∙◌, ◌≢◌, ◌⊎◌, inl,
  inr, Bool, true, false, not, ◌&&◌, ◌||◌, Option, none, some, List, [], ◌∷◌, ◌++◌, append-nil,
  append_assoc, arith, ltb, leb, ◌==◌, if◌then◌else◌, Bytes, Bool-cases, Option-cases, length, take,
  drop,
}
use mathlib.Core.List.{map}
use security_addon.Base.{equal}
use security_addon.Base.Int.{ℤ, pos, negsuc, ◌-ℤ◌, ltb_ℤ, to_int32}
use security_addon.Status.{Result, ok, err, fault, ⊤, ◌>>=◌, ◌>>◌, guard, or_status}
use security_addon.Status.{db_init_fail, db_update_fail, db_query_fail, db_timelimt_fail}
use security_addon.Status.{db_usagelimit_fail, invalid_parameter, memory_alloc_fail, fail}
use security_addon.Strings.{get_string_length, safe_malloc, size_max}
use security_addon.Memory.{c_string}

-- The columns that the service reads; a text may be SQL's NULL.
pub record Row : Type 0 where
  pub customer_license_id : ℕ
  pub license_guid : Bytes
  pub model_guid : Bytes
  pub customer_primary_certificate : Option Bytes
  pub customer_secondary_certificate : Option Bytes
  pub customer_license_blob : Option Bytes
  pub license_type : ℤ
  pub usage_count : ℤ
  pub time_limit : Option Bytes

abbrev pub Table : Type 0
Table = List Row

-- What the C library and SQLite answer during one call: `opens` and `prepares` for `sqlite3_open`
-- and `sqlite3_prepare_v2`, `steps` for a `sqlite3_step` that does not fail; the same of the
-- update. `gmtime` may return NULL. `seconds_left` is the difference of `mktime` of the time limit
-- and `time(0)`. `allocates` and `rsize_max_str` are the allocator's and the string library's.
pub record Calls : Type 0 where
  pub opens : Bool
  pub prepares : Bool
  pub steps : Bool
  pub update_prepares : Bool
  pub update_steps : Bool
  pub gmtime : Bool
  pub seconds_left : Bytes → ℤ
  pub allocates : ℕ → Bool
  pub rsize_max_str : ℕ

-- MAX_CERT_SIZE
abbrev pub max_cert_size : ℕ
max_cert_size = 256 * 2 ^ 10

-- `where license_guid = @license_guid and model_guid = @model_guid`
abbrev pub is_licensed : Bytes → Bytes → Row → Bool
is_licensed license model row = equal row.license_guid license && equal row.model_guid model

-- The first row of a `select`, which is the one that `sqlite3_step` gives.
unfoldable pub select_row : Bytes → Bytes → Table → Option Row
select_row license model [] = none
select_row license model (row ∷ rows) =
    if is_licensed license model row then some row else select_row license model rows

-- `update ... set usage_count = usage_count - 1 where ...`, on every row that fits.
unfoldable pub decrement_usage : Bytes → Bytes → Table → Table
decrement_usage license model [] = []
decrement_usage license model (row ∷ rows) =
    (if is_licensed license model row
      then record row { usage_count = row.usage_count -ℤ pos 1 }
      else row)
    ∷ decrement_usage license model rows

-- Opening the file and stepping the `select`.
abbrev step_row : Calls → Table → Bytes → Bytes → Result Row
step_row c table license model =
    guard c.opens db_init_fail
    >> guard c.prepares db_query_fail
    >> guard c.steps db_update_fail
    >> elim (select_row license model table) [ none ↦ err db_update_fail | some row ↦ ok row ]

-- A text column copied into a block of its own, with the row's id.
unfoldable pub get_column :
    Calls → (Row → Option Bytes) → ℕ → Table → Bytes → Bytes → Result (ℕ × Bytes)
get_column c column max_len table license model = step_row c table license model >>= λ row.
    get_string_length c.rsize_max_str (column row) >>= λ len.
    guard (not (len == 0 || ltb max_len len)) invalid_parameter
    >> or_status (safe_malloc c.allocates (len + 1)) memory_alloc_fail
    >> elim (column row) [ none ↦ fault | some text ↦ ok (row.customer_license_id, c_string text) ]

-- `ovsa_db_get_customer_primary_certificate`
unfoldable pub get_customer_primary_certificate : Calls → Table → Bytes → Bytes → Result (ℕ × Bytes)
unfolding get_column
get_customer_primary_certificate c =
    get_column c (λ row. row.customer_primary_certificate) max_cert_size

-- `ovsa_db_get_customer_secondary_certificate`
unfoldable pub get_customer_secondary_certificate :
    Calls → Table → Bytes → Bytes → Result (ℕ × Bytes)
unfolding get_column
get_customer_secondary_certificate c =
    get_column c (λ row. row.customer_secondary_certificate) max_cert_size

-- `ovsa_db_get_customer_license_blob`
unfoldable pub get_customer_license_blob : Calls → Table → Bytes → Bytes → Result (ℕ × Bytes)
unfolding get_column
get_customer_license_blob c = get_column c (λ row. row.customer_license_blob) size_max

-- The two kinds of success of the check: a license of type 1 has a use to count.
pub data Grant : Type 0 where
  free counted : Grant

-- The branch on `license_type`; any type but 0, 1 and 2 leaves `ret` as it was, at OVSA_OK.
-- `sqlite3_column_int` gives the lower 32 bits of the count; the types are small.
unfoldable pub check_type : Calls → Row → ℤ → Result Grant
check_type c row (pos zero) = ok free
check_type c row (pos (suc zero)) =
    if ltb_ℤ (pos 0) (to_int32 row.usage_count) then ok counted else err db_usagelimit_fail
check_type c row (pos (suc (suc zero))) = guard c.gmtime fail >> elim row.time_limit [
  | none ↦ fault
  | some limit ↦ (if ltb_ℤ (pos 0) (c.seconds_left limit) then ok free else err db_timelimt_fail)
]
check_type c row _ = ok free

-- `ovsa_db_validate_license_usage` up to the end of its `select`.
unfoldable pub check_license_usage : Calls → Table → Bytes → Bytes → Result Grant
unfolding check_type
check_license_usage c table license model =
    step_row c table license model >>= λ row. check_type c row row.license_type

-- Its `update`, which runs for type 1 after the `select` has been finalized.
unfoldable pub count_license_usage : Calls → Table → Bytes → Bytes → Result ⊤ × Table
count_license_usage c table license model =
    if not c.update_prepares
    then (err db_query_fail, table)
    else if not c.update_steps
    then (err db_update_fail, table)
    else (ok tt, decrement_usage license model table)

-- The update runs only behind a select that found a use to count.
unfoldable pub settle : Result Grant → Result ⊤ × Table → Table → Result ⊤ × Table
settle (ok free) counting table = (ok tt, table)
settle (ok counted) counting table = counting
settle (err e) counting table = (err e, table)
settle fault counting table = (fault, table)

unfoldable pub validate_license_usage : Calls → Table → Bytes → Bytes → Result ⊤ × Table
unfolding check_license_usage count_license_usage settle
validate_license_usage c table license model =
    settle (check_license_usage c table license model) (count_license_usage c table license model)
      table
