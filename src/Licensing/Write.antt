-- ===== src/Licensing/Write.antt =====
-- The writing of a customer license: Ovsa_tool/src/app/json.c, `ovsa_json_create_customer_license`.
use security_addon.Base.{ℕ, suc, Option, none, some, List, [], ◌∷◌, Bytes, codes}
use security_addon.Status.{Result, ok, err, ◌>>=◌, json_invalid_input}
use security_addon.Json.{
  JsonLibrary, file_name, add_strings, add_number, new_object, new_string, print_item,
}
use security_addon.Licensing.{LicenseSig, ServUrl, get_license_type_string}

module _ (j : JsonLibrary) where
  -- The object of a URL and its certificates' hashes.
  unfoldable pub struct_url : ServUrl → Result j.Item
  struct_url entry = do
    made ← new_object j
    url ← new_string j (some entry.license_serv_url)
    certhash ← new_string j (some entry.cur_cert_hash)
    futurecerthash ← new_string j (some entry.fut_cert_hash)
    ok (
        j.add_item (j.add_item (j.add_item made (codes "url") url) (codes "cur_cert_hash") certhash)
          (codes "fut_cert_hash") futurecerthash)

  -- The loop over the URLs, from number i on.
  unfoldable pub add_urls : j.Item → ℕ → List ServUrl → Result j.Item
  unfolding struct_url
  add_urls srvurl i [] = ok srvurl
  add_urls srvurl i (entry ∷ list) = struct_url entry >>= λ made.
      add_urls (j.add_item srvurl (file_name (codes "url_") i) made) (suc i) list

  -- The loop over the TCBs, which ends at one without a text.
  unfoldable pub add_sigs : j.Item → ℕ → List (Option Bytes) → Result j.Item
  add_sigs tcb_list i [] = ok tcb_list
  add_sigs tcb_list i (none ∷ tlist) = ok tcb_list
  add_sigs tcb_list i (some tcb_signature ∷ tlist) = new_string j (some tcb_signature) >>= λ sig.
      add_sigs (j.add_item tcb_list (file_name (codes "sig_") i) sig) (suc i) tlist

  -- The object of a license. An object is filled before it is added, which the source does the other
  -- way round, by the pointer that it keeps.
  unfoldable pub license_document : LicenseSig → Result j.Item
  unfolding add_urls add_sigs get_license_type_string
  license_document lic = do
    made ← new_object j
    named ← add_strings j made (
        (codes "creation_date", some lic.creation_date)
        ∷ (codes "isv_certificate", lic.isv_certificate)
        ∷ (codes "model_hash", some lic.model_hash)
        ∷ (codes "license_name", some lic.license_name)
        ∷ (codes "license_version", some lic.license_version)
        ∷ (codes "license_guid", some lic.license_guid)
        ∷ (codes "model_guid", some lic.model_guid)
        ∷ (codes "encryption_key", some lic.encryption_key)
        ∷ [])
    empty ← new_object j
    srvurl ← add_urls empty 0 lic.license_url_list
    typed ←
        add_strings j (j.add_item named (codes "license_serv_url") srvurl)
          ((codes "license_type", get_license_type_string lic.license_type) ∷ [])
    counted ← add_number j typed (codes "usage_count") lic.usage_count
    limited ← add_number j counted (codes "time_limit") lic.time_limit
    empty_list ← new_object j
    tcb_list ← add_sigs empty_list 0 lic.tcb_signatures
    ok (j.add_item limited (codes "tcb_signature") tcb_list)

  -- `ovsa_json_create_customer_license`
  unfoldable pub create_customer_license : ℕ → Option LicenseSig → ℕ → Option Bytes → Result Bytes
  unfolding license_document print_item
  create_customer_license rsize_max_str none outputbuf_size output_buf = err json_invalid_input
  create_customer_license rsize_max_str (some lic) outputbuf_size none = err json_invalid_input
  create_customer_license rsize_max_str (some lic) outputbuf_size (some output_buf) =
      license_document lic >>= λ d. print_item j rsize_max_str d output_buf outputbuf_size
