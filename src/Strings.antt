-- ===== src/Strings.antt =====
-- License_service/src/app/utils.c: checked addition, string length, concatenation and the length
-- prefix of a message. A `char *` is `none` for NULL, else the memory behind it. RSIZE_MAX_STR and
-- the allocator's answers belong to libraries, and are parameters.
pub mod Length
pub mod Concat
pub mod Frame
pub mod Tests
use security_addon.Base.{
  ℕ, zero, suc, ◌+◌, ◌-◌, ◌*◌, ◌/◌, ◌%◌, ◌^◌, ◌≤◌, ◌<◌, Bool, true, false, Option, none, some, List,
  [], ◌∷◌, ◌++◌, ltb, ◌==◌, if◌then◌else◌, Bytes, length, take, drop, replicate,
}
use security_addon.Decimal.{print_padded}
use security_addon.Memory.{c_string, strnlen_s, write_at, strcpy_s, strcat_s, zeros}
use security_addon.Status.{
  Result, ok, err, ◌>>=◌, invalid_parameter, integer_overflow, memory_alloc_fail,
}

-- SIZE_MAX, of a 64-bit `size_t`.
abbrev pub size_max : ℕ
size_max = 2 ^ 64 - 1

-- `ovsa_license_service_safe_add`. The first operand is a `size_t`, so `*var1 >= 0` always holds.
unfoldable pub safe_add : ℕ → ℕ → Result ℕ
safe_add var1 var2 =
    if ltb (size_max - var1) var2 then err integer_overflow else ok ((var1 + var2) % 2 ^ 64)

-- `ovsa_license_service_safe_malloc` on the allocator's answers: the block is cleared.
unfoldable pub safe_malloc : (ℕ → Bool) → ℕ → Result Bytes
safe_malloc allocates size = if allocates size then ok (zeros size) else err memory_alloc_fail

module _ (rsize_max_str : ℕ) where
  -- The loop of `get_string_length`, entered while a whole chunk has no NUL; the fuel bounds the
  -- chunks.
  unfoldable pub length_loop : ℕ → Bytes → ℕ → Result ℕ
  length_loop zero in_buff total_len = ok total_len
  length_loop (suc fuel) in_buff total_len = safe_add total_len rsize_max_str >>= λ total.
      let buff_len = strnlen_s (drop total in_buff) rsize_max_str in
      let rest = length_loop fuel in_buff total in
      if ltb buff_len rsize_max_str then safe_add total buff_len else rest

  -- `ovsa_license_service_get_string_length`
  unfoldable pub get_string_length : Option Bytes → Result ℕ
  unfolding length_loop
  get_string_length none = err invalid_parameter
  get_string_length (some in_buff) =
      let buff_len = strnlen_s in_buff rsize_max_str in
      let chunks = length_loop (suc (length in_buff)) in_buff 0 in
      if ltb buff_len rsize_max_str then ok buff_len else chunks

  -- The loop of `string_concat`: `cur` is the offset of `cur_buff` in `*out_buff`.
  unfoldable pub concat_loop : ℕ → Bytes → ℕ → Bytes → Bytes
  concat_loop zero out_buff cur in_buff = out_buff
  concat_loop (suc fuel) out_buff cur in_buff =
      let at = cur + strnlen_s (drop cur out_buff) rsize_max_str in
      let copied = write_at out_buff at (take rsize_max_str in_buff) in
      let in' = drop rsize_max_str in_buff in
      let cur' = at + rsize_max_str in
      let rest = concat_loop fuel copied cur' in' in
      if ltb (strnlen_s in' rsize_max_str) rsize_max_str
      then strcat_s copied cur' rsize_max_str in'
      else rest

  -- `ovsa_license_service_string_concat`; what `strcat_s` returns is not looked at.
  unfoldable pub string_concat : Option Bytes → Option Bytes → Result Bytes
  unfolding concat_loop
  string_concat none out_buff = err invalid_parameter
  string_concat (some in_buff) none = err invalid_parameter
  string_concat (some in_buff) (some out_buff) =
      let chunks = concat_loop (suc (length in_buff)) out_buff 0 in_buff in
      if ltb (strnlen_s in_buff rsize_max_str) rsize_max_str
      then ok (strcat_s out_buff 0 rsize_max_str in_buff)
      else ok chunks

-- PAYLOAD_LENGTH
abbrev pub payload_length : ℕ
payload_length = 8

-- `ovsa_license_service_append_payload_len_to_blob`: `snprintf` keeps PAYLOAD_LENGTH characters.
unfoldable pub append_payload_len_to_blob : ℕ → Option Bytes → Bytes → Result Bytes
append_payload_len_to_blob rsize_max_str input_buf json_payload =
    get_string_length rsize_max_str input_buf >>= λ json_payload_len.
    let payload_len = take payload_length (print_padded json_payload_len) in
    let size = strnlen_s (payload_len ++ 0 ∷ []) rsize_max_str + 1 in
    string_concat rsize_max_str input_buf (some (strcpy_s json_payload 0 size payload_len))
