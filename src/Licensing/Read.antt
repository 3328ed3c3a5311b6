-- ===== src/Licensing/Read.antt =====
-- The reading of a customer license: License_service/src/app/json.c,
-- `ovsa_license_service_json_extract_customer_license`, and Ovsa_tool/src/app/json.c,
-- `ovsa_json_extract_customer_license`, which differ in two sizes.
use security_addon.Base.{ℕ, zero, suc, Bool, Option, none, some, List, [], ◌∷◌, Bytes, codes}
use security_addon.Memory.{zeros}
use security_addon.Status.{Result, ok, ◌>>=◌, ◌>>◌}
use security_addon.Strings.{safe_malloc}
use security_addon.Json.{
  Json, get_item, valuestring, valueint, children, file_name, copy_member, duplicate, JsonLibrary,
  read_json,
}
use security_addon.Licensing.{LicenseType, ServUrl, LicenseSig, map_license_type}

-- A number, where there is one.
abbrev pub or_else {ℓ} : {A : Type ℓ} → A → Option A → A
or_else before none = before
or_else before (some value) = value

abbrev pub read_type : LicenseType → Option Bytes → LicenseType
read_type before none = before
read_type before (some value) = map_license_type value

-- An entry of the list of URLs, in cleared memory.
unfoldable pub extract_url : Option Json → ServUrl
unfolding get_item copy_member
extract_url url_struct = record {
  license_serv_url =
      copy_member (zeros 2048) 2048 (valuestring (get_item url_struct (codes "url")));
  cur_cert_hash =
      copy_member (zeros 192) 192 (valuestring (get_item url_struct (codes "cur_cert_hash")));
  fut_cert_hash =
      copy_member (zeros 192) 192 (valuestring (get_item url_struct (codes "fut_cert_hash")));
}

module _ (rsize_max_str : ℕ) (allocates : ℕ → Bool) where
  -- The loop over the children of `license_serv_url`, of which some are left, from number i on: each
  -- turn looks its entry up by its name. 2440 is sizeof(ovsa_license_serv_url_list_t).
  unfoldable pub extract_urls : ℕ → ℕ → Option Json → Result (List ServUrl)
  unfolding extract_url safe_malloc get_item
  extract_urls zero i svrurl = ok []
  extract_urls (suc left) i svrurl = do
    safe_malloc allocates 2440
    rest ← extract_urls left (suc i) svrurl
    ok (extract_url (get_item svrurl (file_name (codes "url_") i)) ∷ rest)

  -- The same over `tcb_signature`; 16 is sizeof(ovsa_tcb_sig_list_t).
  unfoldable pub extract_sigs : ℕ → ℕ → Option Json → Result (List (Option Bytes))
  unfolding duplicate safe_malloc get_item
  extract_sigs zero i tcb_sig = ok []
  extract_sigs (suc left) i tcb_sig = do
    safe_malloc allocates 16
    sig ←
        duplicate rsize_max_str allocates none
          (valuestring (get_item tcb_sig (file_name (codes "sig_") i)))
    rest ← extract_sigs left (suc i) tcb_sig
    ok (sig ∷ rest)

  -- A license out of a value, into a struct, by the sizes of the signature and the encryption key.
  unfoldable pub extract_license : ℕ → ℕ → Json → LicenseSig → Result LicenseSig
  unfolding extract_urls extract_sigs get_item copy_member duplicate map_license_type
  extract_license max_signature_size max_ekey_size parse_json lic = do
    let text = λ (key : Bytes). valuestring (get_item (some parse_json) key)
    let number = λ (key : Bytes). valueint (get_item (some parse_json) key)
    let svrurl = get_item (some parse_json) (codes "license_serv_url")
    let tcb_sig = get_item (some parse_json) (codes "tcb_signature")
    certificate ←
        duplicate rsize_max_str allocates lic.isv_certificate (text (codes "isv_certificate"))
    urls ← extract_urls (children svrurl) 0 svrurl
    sigs ← extract_sigs (children tcb_sig) 0 tcb_sig
    ok record {
      signature = copy_member lic.signature max_signature_size (text (codes "signature"));
      license_name = copy_member lic.license_name 256 (text (codes "license_name"));
      license_version = copy_member lic.license_version 32 (text (codes "license_version"));
      creation_date = copy_member lic.creation_date 256 (text (codes "creation_date"));
      model_hash = copy_member lic.model_hash 192 (text (codes "model_hash"));
      encryption_key = copy_member lic.encryption_key max_ekey_size (text (codes "encryption_key"));
      license_type = read_type lic.license_type (text (codes "license_type"));
      usage_count = or_else lic.usage_count (number (codes "usage_count"));
      time_limit = or_else lic.time_limit (number (codes "time_limit"));
      license_guid = copy_member lic.license_guid 36 (text (codes "license_guid"));
      model_guid = copy_member lic.model_guid 36 (text (codes "model_guid"));
      isv_certificate = certificate;
      license_url_list = urls;
      tcb_signatures = sigs;
    }

  -- `ovsa_license_service_json_extract_customer_license`
  unfoldable pub service_extract_license :
      JsonLibrary → Option Bytes → LicenseSig → Result LicenseSig
  unfolding extract_license
  service_extract_license j input_buf lic =
      read_json j input_buf >>= λ parse_json. extract_license 128 128 parse_json lic

  -- `ovsa_json_extract_customer_license`
  unfoldable pub tool_extract_license : JsonLibrary → Option Bytes → LicenseSig → Result LicenseSig
  unfolding extract_license
  tool_extract_license j input_buf lic =
      read_json j input_buf >>= λ parse_json. extract_license 256 256 parse_json lic
