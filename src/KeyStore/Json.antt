-- ===== src/KeyStore/Json.antt =====
-- The JSON of keystores and signatures in libovsa: utils.c, from `ovsa_json_create_isv_keystore` to
-- `ovsa_json_getitem_size`. cJSON is a parameter: an object is known by its members.
pub mod Laws
pub mod RoundTrip
pub mod Tests
use security_addon.Base.{
  ℕ, zero, suc, ◌+◌, ◌-◌, ◌*◌, ◌/◌, ◌%◌, ◌^◌, ◌≤◌, ◌<◌, min, ◌≡◌, refl, sym, ap, ◌∙◌, ◌≢◌, ◌⊎◌, inl,
  inr, Bool, true, false, not, ◌&&◌, ◌||◌, Option, none, some, List, [], ◌∷◌, ◌++◌, append-nil,
  append_assoc, arith, ltb, leb, ◌==◌, if◌then◌else◌, Bytes, Bool-cases, Option-cases, length, take,
  drop,
}
use security_addon.Base.{codes, equal}
use security_addon.Memory.{zeros, c_string, strnlen_s, write_at, memcpy_s}
use security_addon.Status.{
  memory_alloc_fail, Status, Result, fault, ok, err, ⊤, guard, ◌>>=◌, ◌>>◌, json_invalid_input,
  json_error_create_object, json_error_add_element, json_print_fail, json_parse_fail,
}
use security_addon.Strings.{get_string_length}
use security_addon.KeyStore.Asymmetric.{cleared, IsvKeystore}

-- A member of an object: its key, and its text where it is a string.
pub record Member : Type 0 where
  pub key : Bytes
  pub valuestring : Option Bytes

-- cJSON_CreateObject, cJSON_AddStringToObject, cJSON_DetachItemFromObjectCaseSensitive, cJSON_Print
-- and cJSON_Parse, `none` for NULL.
pub record CJson : Type 1 where
  pub Doc : Type 0
  pub members : Doc → List Member
  pub create_object : Option Doc
  pub add_string : Doc → Bytes → Bytes → Option Doc
  pub detach_item : Doc → Bytes → Option Doc
  pub print : Doc → Option Bytes
  pub parse : Bytes → Option Doc

-- The first member with a key, where it is a string: cJSON_GetObjectItemCaseSensitive, cJSON_IsString
-- and `valuestring`.
unfoldable pub get_string : List Member → Bytes → Option Bytes
get_string [] key = none
get_string (m ∷ ms) key = if equal m.key key then m.valuestring else get_string ms key

-- NULL as an error.
abbrev pub or_fail {ℓ} : {A : Type ℓ} → Option A → Status → Result A
or_fail none ret = err ret
or_fail (some a) ret = ok a

abbrev pub is_null : Option Bytes → Bool
is_null none = true
is_null (some _) = false

abbrev pub or_empty : Option Bytes → Bytes
or_empty none = 0 ∷ []
or_empty (some text) = text

module _ (j : CJson) (rsize_max_str : ℕ) where
  abbrev pub add_member : j.Doc → Bytes → Bytes → Result j.Doc
  add_member d key value = or_fail (j.add_string d key value) json_error_add_element

  -- The end of a function that makes a text: what `memcpy_s` answers is not looked at.
  unfoldable pub print_into : j.Doc → Bytes → ℕ → Result Bytes
  print_into d out_buf out_len = do
    str_print ← or_fail (j.print d) json_print_fail
    str_len ← get_string_length rsize_max_str (some str_print)
    ok (memcpy_s out_buf out_len str_print str_len)

  -- The object of a pair. Of the secondary keystore it has the keys and the certificate only.
  unfoldable pub keystore_document : IsvKeystore → IsvKeystore → Result j.Doc
  keystore_document primary secondary = do
    d ← or_fail j.create_object json_error_create_object
    d1 ← add_member d (codes "name") primary.isv_name
    d2 ← add_member d1 (codes "key_guid") primary.key_guid
    d3 ← add_member d2 (codes "public_key") primary.public_key
    d4 ← add_member d3 (codes "private_key") primary.private_key
    d5 ← add_member d4 (codes "certificate") (or_empty primary.isv_certificate)
    d6 ← add_member d5 (codes "public_key_2") secondary.public_key
    d7 ← add_member d6 (codes "private_key_2") secondary.private_key
    add_member d7 (codes "certificate_2") (or_empty secondary.isv_certificate)

  -- `ovsa_json_create_isv_keystore` of a pair.
  unfoldable pub create_isv_keystore : IsvKeystore → IsvKeystore → Option Bytes → ℕ → Result Bytes
  unfolding print_into keystore_document
  create_isv_keystore primary secondary output_buf output_len = do
    guard (not (is_null output_buf || output_len == 0)) json_invalid_input
    d ← keystore_document primary secondary
    print_into d (or_empty output_buf) output_len

  -- A text member into an array, `strnlen_s` bytes of it; nothing where there is no such string.
  unfoldable pub copy_text : Bytes → ℕ → Option Bytes → Bytes
  copy_text array size none = array
  copy_text array size (some valuestring) =
      memcpy_s array size valuestring (strnlen_s valuestring size)

  -- A certificate into the block that was allocated for it. `memcpy_s` is given the text's own
  -- length as the block's; it refuses NULL and a length of 0.
  unfoldable pub copy_certificate_text : Option Bytes → Option Bytes → Result (Option Bytes)
  copy_certificate_text block none = ok block
  copy_certificate_text none (some valuestring) =
      get_string_length rsize_max_str (some valuestring) >>= λ _. ok none
  copy_certificate_text (some block) (some valuestring) =
      get_string_length rsize_max_str (some valuestring) >>= λ str_len.
      ok (some (memcpy_s block str_len valuestring str_len))

  abbrev pub parse_input : Option Bytes → Result j.Doc
  parse_input none = err json_invalid_input
  parse_input (some input_buf) = or_fail (j.parse input_buf) json_parse_fail

  -- `ovsa_json_extract_keystore_info` into a pair. The secondary's name and GUID are not in the text.
  unfoldable pub extract_keystore_info :
      Option Bytes → IsvKeystore → IsvKeystore → Result (IsvKeystore × IsvKeystore)
  unfolding get_string copy_text copy_certificate_text
  extract_keystore_info input_buf primary secondary = do
    d ← parse_input input_buf
    let text = get_string (j.members d)
    certificate ← copy_certificate_text primary.isv_certificate (text (codes "certificate"))
    certificate_2 ← copy_certificate_text secondary.isv_certificate (text (codes "certificate_2"))
    ok (
      record {
        isv_name = copy_text primary.isv_name 256 (text (codes "name"));
        key_guid = copy_text primary.key_guid 36 (text (codes "key_guid"));
        public_key = copy_text primary.public_key 512 (text (codes "public_key"));
        private_key = copy_text primary.private_key 512 (text (codes "private_key"));
        isv_certificate = certificate;
      },
      record secondary {
        public_key = copy_text secondary.public_key 512 (text (codes "public_key_2"));
        private_key = copy_text secondary.private_key 512 (text (codes "private_key_2"));
        isv_certificate = certificate_2;
      },
    )

  -- `ovsa_json_create_encrypted_keystore`
  unfoldable pub create_encrypted_keystore : Option Bytes → Option Bytes → ℕ → Result Bytes
  unfolding print_into
  create_encrypted_keystore keystore_buf output_buf out_len = do
    guard (not (is_null keystore_buf || is_null output_buf || out_len == 0)) json_invalid_input
    d ← or_fail j.create_object json_error_create_object
    d1 ← add_member d (codes "keystore") (or_empty keystore_buf)
    print_into d1 (or_empty output_buf) out_len

  -- `ovsa_json_extract_encrypted_keystore` into the block that the caller allocated, whose size
  -- `enkey_len` is only compared with 0.
  unfoldable pub extract_encrypted_keystore :
      Option Bytes → Option Bytes → ℕ → Result (Option Bytes)
  unfolding get_string copy_certificate_text
  extract_encrypted_keystore input_buf keystore enkey_len = do
    guard (not (is_null input_buf || enkey_len == 0)) json_invalid_input
    d ← parse_input input_buf
    copy_certificate_text keystore (get_string (j.members d) (codes "keystore"))

  -- `ovsa_json_apend_signature`
  unfoldable pub apend_signature : Option Bytes → Option Bytes → Option Bytes → ℕ → Result Bytes
  unfolding print_into
  apend_signature input_buf sig_buf out_buf buff_len = do
    guard (not (is_null input_buf || is_null sig_buf || (buff_len == 0 || is_null out_buf)))
        json_invalid_input
    d ← parse_input input_buf
    signed ← add_member d (codes "signature") (or_empty sig_buf)
    print_into signed (or_empty out_buf) buff_len

  -- `ovsa_json_extract_and_strip_signature`: the signature and the text without it.
  unfoldable pub extract_and_strip_signature :
      Option Bytes → Option Bytes → ℕ → Option Bytes → ℕ → Result (Bytes × Bytes)
  unfolding print_into get_string
  extract_and_strip_signature input_buf sig_buf sig_len out_buf out_len = do
    guard (not (is_null input_buf || is_null sig_buf || (out_len == 0 || is_null out_buf)))
        json_invalid_input
    d ← parse_input input_buf
    valuestring ← or_fail (get_string (j.members d) (codes "signature")) json_parse_fail
    let signature = memcpy_s (or_empty sig_buf) sig_len valuestring (strnlen_s valuestring sig_len)
    stripped ← or_fail (j.detach_item d (codes "signature")) json_parse_fail
    text ← print_into stripped (or_empty out_buf) out_len
    ok (signature, text)

  abbrev pub size_of_string : Option Bytes → ℕ → Result ℕ
  size_of_string none len = ok len
  size_of_string (some valuestring) len = get_string_length rsize_max_str (some valuestring)

  -- `ovsa_json_getitem_size`: the length behind `len` becomes that of a string, and stays as it was
  -- where there is none.
  unfoldable pub getitem_size : Bytes → Option Bytes → ℕ → Result ℕ
  unfolding get_string
  getitem_size key_name in_buf len =
      parse_input in_buf >>= λ d. size_of_string (get_string (j.members d) key_name) len

  -- The block for a certificate of a length.
  abbrev pub allocate_block : (ℕ → Bool) → ℕ → Result (Option Bytes)
  allocate_block allocates cert_len =
      if cert_len == 0
      then ok none
      else if allocates (cert_len + 1)
      then ok (some (zeros (cert_len + 1)))
      else err memory_alloc_fail

  -- The end of `ovsa_crypto_extract_keystore` of asymmetric.c, on the decrypted text of a file: the
  -- blocks of the certificates, and the pair.
  unfoldable pub extract_pair : (ℕ → Bool) → Bytes → Result (IsvKeystore × IsvKeystore)
  unfolding extract_keystore_info getitem_size
  extract_pair allocates keystore_data = do
    cert_len ← getitem_size (codes "certificate") (some keystore_data) 0
    block ← allocate_block allocates cert_len
    cert_len_2 ← getitem_size (codes "certificate_2") (some keystore_data) cert_len
    block_2 ← allocate_block allocates cert_len_2
    extract_keystore_info (some keystore_data) (record cleared { isv_certificate = block })
        (record cleared { isv_certificate = block_2 })
