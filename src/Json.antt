-- ===== src/Json.antt =====
-- The values of cJSON and its calls, as License_service/src/app/json.c and Ovsa_tool/src/app/json.c
-- use them. cJSON itself is a parameter: what it keeps of an item is known by the item's value.
pub mod Laws
pub mod Plain
use security_addon.Base.{
  ℕ, zero, suc, ◌+◌, ◌/◌, ◌%◌, ◌≡◌, Bool, true, false, Option, none, some, List, [], ◌∷◌, ◌++◌, ltb,
  if◌then◌else◌, Bytes,
}
use security_addon.Base.{codes, equal}
use security_addon.Base.Int.{ℤ}
use security_addon.Memory.{strnlen_s, memcpy_s, zeros}
use security_addon.Status.{
  Status, Result, fault, ok, err, ⊤, ◌>>=◌, ◌>>◌, json_error_create_object, json_error_add_element,
  json_print_fail, json_parse_fail, json_invalid_input,
}
use security_addon.Strings.{get_string_length, safe_malloc}

-- `number` holds `valueint`; `other` is true, false or null.
mutual
  pub data Json : Type 0 where
    other : Json
    text : Bytes → Json
    number : ℤ → Json
    array : Elements → Json
    object : Members → Json

  pub data Elements : Type 0 where
    nil : Elements
    element : Json → Elements → Elements

  pub data Members : Type 0 where
    end : Members
    member : Bytes → Json → Members → Members

-- cJSON_GetObjectItemCaseSensitive, on what may be NULL: the first member with a key.
unfoldable pub find : Members → Bytes → Option Json
find end key = none
find (member k value rest) key = if equal k key then some value else find rest key

abbrev pub members_of : Json → Members
members_of (object members) = members
members_of other = end
members_of (text _) = end
members_of (number _) = end
members_of (array _) = end

unfoldable pub get_item : Option Json → Bytes → Option Json
unfolding find
get_item none key = none
get_item (some value) key = find (members_of value) key

-- cJSON_IsString and `valuestring`, cJSON_IsNumber and `valueint`.
abbrev pub valuestring : Option Json → Option Bytes
valuestring (some (text value)) = some value
valuestring (some other) = none
valuestring (some (number _)) = none
valuestring (some (array _)) = none
valuestring (some (object _)) = none
valuestring none = none

abbrev pub valueint : Option Json → Option ℤ
valueint (some (number value)) = some value
valueint (some other) = none
valueint (some (text _)) = none
valueint (some (array _)) = none
valueint (some (object _)) = none
valueint none = none

-- The children of a value, by `child` and `next`.
abbrev pub count_members : Members → ℕ
count_members end = 0
count_members (member k value rest) = suc (count_members rest)

abbrev pub count_elements : Elements → ℕ
count_elements nil = 0
count_elements (element value rest) = suc (count_elements rest)

abbrev pub children : Option Json → ℕ
children (some (object members)) = count_members members
children (some (array elements)) = count_elements elements
children (some other) = 0
children (some (text _)) = 0
children (some (number _)) = 0
children none = 0

-- The children themselves, as cJSON_ArrayForEach visits them.
abbrev pub member_values : Members → List Json
member_values end = []
member_values (member k value rest) = value ∷ member_values rest

abbrev pub element_values : Elements → List Json
element_values nil = []
element_values (element value rest) = value ∷ element_values rest

abbrev pub child_values : Option Json → List Json
child_values (some (object members)) = member_values members
child_values (some (array elements)) = element_values elements
child_values (some other) = []
child_values (some (text _)) = []
child_values (some (number _)) = []
child_values none = []

-- The calls that make and print items, `none` for NULL. What cJSON_AddItemToObject and
-- cJSON_AddItemToArray return is not looked at.
pub record JsonLibrary : Type 1 where
  pub Item : Type 0
  pub view : Item → Json
  pub create_object : Option Item
  pub create_string : Option Bytes → Option Item
  pub add_string : Item → Bytes → Option Bytes → Option Item
  pub add_number : Item → Bytes → ℤ → Option Item
  pub add_item : Item → Bytes → Item → Item
  pub create_array : Option Item
  pub append_item : Item → Item → Item
  pub print : Item → Option Bytes
  pub parse : Bytes → Option Json

-- NULL as an error.
abbrev pub non_null {ℓ} : {A : Type ℓ} → Option A → Status → Result A
non_null none ret = err ret
non_null (some a) ret = ok a

-- `snprintf_s_i(fname, MAX_FILE_NAME_LEN, "url_%d", i % 100u)`, the prefix apart.
unfoldable pub file_name : Bytes → ℕ → Bytes
file_name prefix i =
    let n = i % 100 in
    prefix ++ (if ltb n 10 then (b'0' + n) ∷ [] else (b'0' + n / 10) ∷ (b'0' + n % 10) ∷ [])

-- A text member into an array: `memcpy_s` of `strnlen_s` bytes, where there is such a string.
unfoldable pub copy_member : Bytes → ℕ → Option Bytes → Bytes
copy_member dest size none = dest
copy_member dest size (some value) = memcpy_s dest size value (strnlen_s value size)

module _ (rsize_max_str : ℕ) (allocates : ℕ → Bool) where
  -- A text member into a block made for it, where there is such a string; the block's last byte is
  -- the NUL that clearing has left.
  unfoldable pub duplicate : Option Bytes → Option Bytes → Result (Option Bytes)
  duplicate before none = ok before
  duplicate before (some value) = do
    str_len ← get_string_length rsize_max_str (some value)
    block ← safe_malloc allocates (str_len + 1)
    ok (some (memcpy_s block str_len value str_len))

module _ (j : JsonLibrary) where
  -- A row of cJSON_AddStringToObject, each with the same error.
  unfoldable pub add_strings : j.Item → List (Bytes × Option Bytes) → Result j.Item
  add_strings item [] = ok item
  add_strings item ((key, value) ∷ rest) =
      non_null (j.add_string item key value) json_error_add_element >>= λ next.
      add_strings next rest

  abbrev pub add_number : j.Item → Bytes → ℤ → Result j.Item
  add_number item key value = non_null (j.add_number item key value) json_error_add_element

  unfoldable pub new_object : Result j.Item
  new_object = non_null j.create_object json_error_create_object

  unfoldable pub new_array : Result j.Item
  new_array = non_null j.create_array json_error_create_object

  abbrev pub new_string : Option Bytes → Result j.Item
  new_string value = non_null (j.create_string value) json_error_create_object

  -- The end of a function that makes a text: what `memcpy_s` answers is not looked at.
  unfoldable pub print_item : ℕ → j.Item → Bytes → ℕ → Result Bytes
  print_item rsize_max_str item output_buf output_len = do
    str_print ← non_null (j.print item) json_print_fail
    str_len ← get_string_length rsize_max_str (some str_print)
    ok (memcpy_s output_buf output_len str_print str_len)

  -- The start of a function that reads a text.
  abbrev pub read_json : Option Bytes → Result Json
  read_json none = err json_invalid_input
  read_json (some input_buf) = non_null (j.parse input_buf) json_parse_fail
