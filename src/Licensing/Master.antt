-- ===== src/Licensing/Master.antt =====
-- Master licenses: Ovsa_tool/src/app/json.c, `ovsa_json_create_master_license` and
-- `ovsa_json_extract_master_license`.
pub mod RoundTrip
use security_addon.Base.{
  ℕ, zero, suc, ◌+◌, ◌-◌, ◌*◌, ◌/◌, ◌%◌, ◌^◌, ◌≤◌, ◌<◌, min, ◌≡◌, refl, sym, ap, ◌∙◌, ◌≢◌, ◌⊎◌, inl,
  inr, Bool, true, false, not, ◌&&◌, ◌||◌, Option, none, some, List, [], ◌∷◌, ◌++◌, append-nil,
  append_assoc, arith, ltb, leb, ◌==◌, if◌then◌else◌, Bytes, Bool-cases, Option-cases, length, take,
  drop, map,
}
use security_addon.Base.{codes, equal}
use security_addon.Status.{Result, fault, ok, err, ◌>>=◌, json_invalid_input}
use security_addon.Json.{
  Json, get_item, valuestring, JsonLibrary, copy_member, duplicate, add_strings, new_object,
  print_item, read_json,
}

-- ovsa_master_license_sig_t with the license in it.
pub record MasterLicense : Type 0 where
  pub signature : Bytes
  pub creation_date : Bytes
  pub model_hash : Bytes
  pub encryption_key : Bytes
  pub license_guid : Bytes
  pub model_guid : Bytes
  pub isv_certificate : Option Bytes

module _ (j : JsonLibrary) where
  unfoldable pub master_document : MasterLicense → Result j.Item
  master_document lic = do
    made ← new_object j
    add_strings j made (
        (codes "creation_date", some lic.creation_date)
        ∷ (codes "model_hash", some lic.model_hash)
        ∷ (codes "license_guid", some lic.license_guid)
        ∷ (codes "model_guid", some lic.model_guid)
        ∷ (codes "encryption_key", some lic.encryption_key)
        ∷ (codes "isv_certificate", lic.isv_certificate)
        ∷ [])

  -- `ovsa_json_create_master_license`
  unfoldable pub create_master_license : ℕ → Option MasterLicense → ℕ → Option Bytes → Result Bytes
  create_master_license rsize_max_str lic output_buf_size none = err json_invalid_input
  create_master_license rsize_max_str none output_buf_size (some output_buf) =
      err json_invalid_input
  create_master_license rsize_max_str (some lic) output_buf_size (some output_buf) =
      master_document lic >>= λ d. print_item j rsize_max_str d output_buf output_buf_size

  -- `ovsa_json_extract_master_license`
  unfoldable pub extract_master_license :
      ℕ → (ℕ → Bool) → Option Bytes → MasterLicense → Result MasterLicense
  unfolding get_item copy_member duplicate
  extract_master_license rsize_max_str allocates input_buf lic = do
    parse_json ← read_json j input_buf
    let text = λ (key : Bytes). valuestring (get_item (some parse_json) key)
    certificate ←
        duplicate rsize_max_str allocates lic.isv_certificate (text (codes "isv_certificate"))
    ok record {
      signature = copy_member lic.signature 256 (text (codes "signature"));
      creation_date = copy_member lic.creation_date 256 (text (codes "creation_date"));
      model_hash = copy_member lic.model_hash 192 (text (codes "model_hash"));
      encryption_key = copy_member lic.encryption_key 256 (text (codes "encryption_key"));
      license_guid = copy_member lic.license_guid 36 (text (codes "license_guid"));
      model_guid = copy_member lic.model_guid 36 (text (codes "model_guid"));
      isv_certificate = certificate;
    }
