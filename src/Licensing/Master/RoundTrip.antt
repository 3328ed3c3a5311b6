-- ===== src/Licensing/Master/RoundTrip.antt =====
-- A master license written and read again.
use security_addon.Base.{
  ℕ, ◌^◌, ◌≤◌, ◌<◌, ◌≡◌, refl, sym, ap, ◌∙◌, Bool, true, none, some, List, [], ◌∷◌, Bytes, length,
}
use security_addon.Base.{codes, equal}
use security_addon.Memory.{c_string, zeros}
use security_addon.Status.{ok}
use security_addon.Json.{Json, object, end, JsonLibrary, get_item, copy_member, duplicate}
use security_addon.Json.Laws.{
  IsLawful, Prints, string_members, new_object-view, add_strings-view, copy_member-zeros,
  duplicate-some, print_item-parse,
}
use security_addon.Licensing.Written.{text_content}
use security_addon.Licensing.Master.{
  MasterLicense, master_document, create_master_license, extract_master_license,
}

-- Texts in the place of arrays.
abbrev pub master_content : MasterLicense → MasterLicense
master_content lic = record {
  signature = c_string lic.signature;
  creation_date = c_string lic.creation_date;
  model_hash = c_string lic.model_hash;
  encryption_key = c_string lic.encryption_key;
  license_guid = c_string lic.license_guid;
  model_guid = c_string lic.model_guid;
  isv_certificate = text_content lic.isv_certificate;
}

abbrev pub cleared_master : MasterLicense
cleared_master = record {
  signature = zeros 256;
  creation_date = zeros 256;
  model_hash = zeros 192;
  encryption_key = zeros 256;
  license_guid = zeros 37;
  model_guid = zeros 37;
  isv_certificate = none;
}

abbrev pub MasterFits : MasterLicense → Type 0
MasterFits lic =
    (length (c_string lic.creation_date) ≤ 256)
    × (length (c_string lic.model_hash) ≤ 192)
    × (length (c_string lic.encryption_key) ≤ 256)
    × (length (c_string lic.license_guid) ≤ 36)
    × (length (c_string lic.model_guid) ≤ 36)

abbrev master_rows : MasterLicense → Bytes → List (Bytes × Bytes)
master_rows lic certificate =
    (codes "creation_date", lic.creation_date)
    ∷ (codes "model_hash", lic.model_hash)
    ∷ (codes "license_guid", lic.license_guid)
    ∷ (codes "model_guid", lic.model_guid)
    ∷ (codes "encryption_key", lic.encryption_key)
    ∷ (codes "isv_certificate", certificate)
    ∷ []

abbrev pub master_value : MasterLicense → Bytes → Json
master_value lic certificate = object (string_members (master_rows lic certificate))

no_string : (dest : Bytes) (size : ℕ) → copy_member dest size none ≡ dest
unfolding copy_member
no_string dest size = refl

module _ (j : JsonLibrary) (rsize_max_str : ℕ) (allocates : ℕ → Bool) where
  read_master :
      (lic : MasterLicense) (certificate block buf : Bytes)
      → j.parse buf ≡ some (master_value lic certificate)
      → duplicate rsize_max_str allocates none (some (c_string certificate)) ≡ ok (some block)
      → extract_master_license j rsize_max_str allocates (some buf) cleared_master
        ≡ ok record {
          signature = copy_member (zeros 256) 256 none;
          creation_date = copy_member (zeros 256) 256 (some (c_string lic.creation_date));
          model_hash = copy_member (zeros 192) 192 (some (c_string lic.model_hash));
          encryption_key = copy_member (zeros 256) 256 (some (c_string lic.encryption_key));
          license_guid = copy_member (zeros 37) 36 (some (c_string lic.license_guid));
          model_guid = copy_member (zeros 37) 36 (some (c_string lic.model_guid));
          isv_certificate = some block;
        }
  unfolding extract_master_license get_item equal
  read_master lic certificate block buf parsed d = rw (parsed, d)

  -- A master license that is written into a cleared buffer with room is read again as it is, but for
  -- the signature, which it has not got yet, if it has a certificate, its texts fit the arrays, cJSON
  -- is lawful and memory can be had.
  pub extract_master_license-create_master_license :
      (lic : MasterLicense) (certificate : Bytes) (n k output_buf_size : ℕ)
      → IsLawful j
      → 0 < rsize_max_str
      → ((m : ℕ) → allocates m ≡ true)
      → lic.isv_certificate ≡ some certificate
      → MasterFits lic
      → length certificate < 2 ^ 64
      → Prints j n (master_value lic certificate)
      → n ≤ output_buf_size
      → n < 2 ^ 64
      → (buf : Bytes) × (create_master_license j rsize_max_str
            (some lic)
            output_buf_size
            (some (zeros k))
          ≡ ok buf)
        × (read : MasterLicense) × (extract_master_license j rsize_max_str allocates
              (some buf)
              cleared_master
            ≡ ok read)
        × (master_content read ≡ record (master_content lic) { signature = c_string (zeros 256) })
  unfolding create_master_license master_document
  extract_master_license-create_master_license lic certificate n k output_buf_size lawful r_pos room
        cert fits small prints bounded within =
      let (d0, made, e0) = new_object-view j lawful in
      let (d, added, e) = add_strings-view j lawful d0 end (master_rows lic certificate) e0 in
      let (buf, printed, parsed) =
        print_item-parse j rsize_max_str d (master_value lic certificate) n k output_buf_size prints
          e r_pos bounded within in
      let (block, copied, same) =
        duplicate-some rsize_max_str allocates none certificate r_pos room small in
      (
        buf,
        rw (made, cert, added, printed),
        _,
        read_master lic certificate block buf (parsed buf refl) copied,
        λ i. record {
          signature = c_string (no_string (zeros 256) 256 i);
          creation_date = copy_member-zeros 256 256 lic.creation_date fits.0 i;
          model_hash = copy_member-zeros 192 192 lic.model_hash fits.1 i;
          encryption_key = copy_member-zeros 256 256 lic.encryption_key fits.2 i;
          license_guid = copy_member-zeros 37 36 lic.license_guid fits.3 i;
          model_guid = copy_member-zeros 37 36 lic.model_guid fits.4 i;
          isv_certificate = (ap some same ∙ ap text_content (sym cert)) i;
        },
      )
