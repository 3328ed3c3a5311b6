-- ===== src/Licensing/Config.antt =====
-- License configurations: Ovsa_tool/src/app/json.c, `ovsa_json_create_license_config` and
-- `ovsa_json_extract_license_config`.
pub mod RoundTrip
use security_addon.Base.{
  ℕ, zero, suc, ◌+◌, ◌-◌, ◌*◌, ◌/◌, ◌%◌, ◌^◌, ◌≤◌, ◌<◌, min, ◌≡◌, refl, sym, ap, ◌∙◌, ◌≢◌, ◌⊎◌, inl,
  inr, Bool, true, false, not, ◌&&◌, ◌||◌, Option, none, some, List, [], ◌∷◌, ◌++◌, append-nil,
  append_assoc, arith, ltb, leb, ◌==◌, if◌then◌else◌, Bytes, Bool-cases, Option-cases, length, take,
  drop, map,
}
use security_addon.Base.{codes, equal}
use security_addon.Base.Int.{ℤ}
use security_addon.Status.{Result, fault, ok, err, ◌>>=◌, json_invalid_input}
use security_addon.Json.{
  Json, get_item, valuestring, valueint, children, JsonLibrary, copy_member, duplicate, add_strings,
  add_number, new_object, print_item, read_json,
}
use security_addon.Licensing.{LicenseType, ServUrl, get_license_type_string, map_license_type}
use security_addon.Licensing.Write.{add_urls}
use security_addon.Licensing.Read.{or_else, read_type, extract_urls}

-- ovsa_license_config_t
pub record LicenseConfig : Type 0 where
  pub license_name : Bytes
  pub license_version : Bytes
  pub usage_count : ℤ
  pub time_limit : ℤ
  pub license_type : LicenseType
  pub license_url_list : List ServUrl
  pub isv_certificate : Option Bytes

module _ (j : JsonLibrary) where
  -- The object of a configuration, the list of URLs filled before it is added.
  unfoldable pub config_document : LicenseConfig → Result j.Item
  unfolding add_urls get_license_type_string
  config_document config = do
    made ← new_object j
    named ← add_strings j made (
        (codes "name", some config.license_name)
        ∷ (codes "license_type", get_license_type_string config.license_type)
        ∷ (codes "license_version", some config.license_version)
        ∷ [])
    empty ← new_object j
    srvurl ← add_urls j empty 0 config.license_url_list
    counted ←
        add_number j (j.add_item named (codes "license_serv_url") srvurl) (codes "usage_count")
          config.usage_count
    limited ← add_number j counted (codes "time_limit") config.time_limit
    add_strings j limited ((codes "isv_certificate", config.isv_certificate) ∷ [])

  -- `ovsa_json_create_license_config`
  unfoldable pub create_license_config : ℕ → Option LicenseConfig → ℕ → Option Bytes → Result Bytes
  create_license_config rsize_max_str none output_buf_size output_buf = err json_invalid_input
  create_license_config rsize_max_str (some config) output_buf_size none = err json_invalid_input
  create_license_config rsize_max_str (some config) output_buf_size (some output_buf) =
      config_document config >>= λ d. print_item j rsize_max_str d output_buf output_buf_size

  -- `ovsa_json_extract_license_config`
  unfoldable pub extract_license_config :
      ℕ → (ℕ → Bool) → Option Bytes → LicenseConfig → Result LicenseConfig
  unfolding extract_urls get_item copy_member duplicate map_license_type
  extract_license_config rsize_max_str allocates input_buf config = do
    parse_json ← read_json j input_buf
    let text = λ (key : Bytes). valuestring (get_item (some parse_json) key)
    let number = λ (key : Bytes). valueint (get_item (some parse_json) key)
    let svrurl = get_item (some parse_json) (codes "license_serv_url")
    certificate ←
        duplicate rsize_max_str allocates config.isv_certificate (text (codes "isv_certificate"))
    urls ← extract_urls rsize_max_str allocates (children svrurl) 0 svrurl
    ok record {
      license_name = copy_member config.license_name 256 (text (codes "name"));
      license_version = copy_member config.license_version 32 (text (codes "license_version"));
      usage_count = or_else config.usage_count (number (codes "usage_count"));
      time_limit = or_else config.time_limit (number (codes "time_limit"));
      license_type = read_type config.license_type (text (codes "license_type"));
      license_url_list = urls;
      isv_certificate = certificate;
    }
