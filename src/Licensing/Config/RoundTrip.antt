-- ===== src/Licensing/Config/RoundTrip.antt =====
-- A license configuration written and read again.
use security_addon.Base.{
  ℕ, ◌^◌, ◌≤◌, ◌<◌, ◌≡◌, refl, sym, ap, ◌∙◌, Bool, true, none, some, List, [], ◌∷◌, arith, Bytes,
  length, map,
}
use security_addon.Base.{codes, equal}
use security_addon.Base.Int.{pos}
use security_addon.Memory.{c_string, zeros}
use security_addon.Status.{ok}
use security_addon.Json.{
  Json, text, number, object, end, member, JsonLibrary, get_item, count_members, copy_member,
  duplicate,
}
use security_addon.Json.Laws.{
  IsLawful, Prints, new_object-view, add_strings-view, copy_member-zeros, duplicate-some,
  print_item-parse,
}
use security_addon.Licensing.{sale, ServUrl, get_license_type_string, map_license_type}
use security_addon.Licensing.Read.{extract_urls}
use security_addon.Licensing.Names.{named, Finds-named}
use security_addon.Licensing.Written.{url_content, text_content, url_value, add_urls-view}
use security_addon.Licensing.RoundTrip.{
  UrlsFit, count-named, length-map, map_license_type-name, extract_urls-content,
}
use security_addon.Licensing.Config.{
  LicenseConfig, config_document, create_license_config, extract_license_config,
}

-- Texts in the place of arrays.
abbrev pub config_content : LicenseConfig → LicenseConfig
config_content c = record c {
  license_name = c_string c.license_name;
  license_version = c_string c.license_version;
  license_url_list = map url_content c.license_url_list;
  isv_certificate = text_content c.isv_certificate;
}

abbrev pub cleared_config : LicenseConfig
cleared_config = record {
  license_name = zeros 256;
  license_version = zeros 32;
  usage_count = pos 0;
  time_limit = pos 0;
  license_type = sale;
  license_url_list = [];
  isv_certificate = none;
}

abbrev pub config_value : LicenseConfig → Bytes → Bytes → Json
config_value c certificate type_name = object (
    member (codes "name") (text (c_string c.license_name)) (
      member (codes "license_type") (text (c_string type_name)) (
        member (codes "license_version") (text (c_string c.license_version)) (
          member (codes "license_serv_url")
            (object (named (codes "url_") 0 (map url_value c.license_url_list)))
            (member (codes "usage_count") (number c.usage_count) (
              member (codes "time_limit") (number c.time_limit)
                (member (codes "isv_certificate") (text (c_string certificate)) end)))))))

config_document-view :
    (j : JsonLibrary) (lawful : IsLawful j) (c : LicenseConfig) (certificate type_name : Bytes)
    → c.isv_certificate ≡ some certificate
    → get_license_type_string c.license_type ≡ some type_name
    → (d : j.Item) × (config_document j c ≡ ok d)
      × (j.view d ≡ config_value c certificate type_name)
unfolding config_document
config_document-view j lawful c certificate type_name cert typ =
    let (d0, made, e0) = new_object-view j lawful in
    let (d1, named1, e1) =
      add_strings-view j lawful d0 end
        ((codes "name", c.license_name)
          ∷ (codes "license_type", type_name)
          ∷ (codes "license_version", c.license_version)
          ∷ [])
        e0 in
    let (urls, filled, eu) = add_urls-view j lawful d0 end 0 c.license_url_list e0 in
    let e2 = lawful.adds_item d1 urls _ (codes "license_serv_url") e1 in
    let (d3, counted, e3) = lawful.adds_number _ _ (codes "usage_count") c.usage_count e2 in
    let (d4, limited, e4) = lawful.adds_number d3 _ (codes "time_limit") c.time_limit e3 in
    let (d5, certified, e5) =
      add_strings-view j lawful d4 _ ((codes "isv_certificate", certificate) ∷ []) e4 in
    (d5, rw (made, typ, named1, filled, counted, limited, cert, certified), e5 ∙ rw eu)

module _ (j : JsonLibrary) (rsize_max_str : ℕ) (allocates : ℕ → Bool) where
  read_config :
      (c : LicenseConfig) (certificate type_name block : Bytes) (urls : List ServUrl) (buf : Bytes)
      → j.parse buf ≡ some (config_value c certificate type_name)
      → duplicate rsize_max_str allocates none (some (c_string certificate)) ≡ ok (some block)
      → extract_urls rsize_max_str allocates
          (count_members (named (codes "url_") 0 (map url_value c.license_url_list)))
          0
          (some (object (named (codes "url_") 0 (map url_value c.license_url_list))))
        ≡ ok urls
      → extract_license_config j rsize_max_str allocates (some buf) cleared_config
        ≡ ok record {
          license_name = copy_member (zeros 256) 256 (some (c_string c.license_name));
          license_version = copy_member (zeros 32) 32 (some (c_string c.license_version));
          usage_count = c.usage_count;
          time_limit = c.time_limit;
          license_type = map_license_type (c_string type_name);
          license_url_list = urls;
          isv_certificate = some block;
        }
  unfolding extract_license_config get_item equal
  read_config c certificate type_name block urls buf parsed d u = rw (parsed, d, u)

  -- A configuration that is written into a cleared buffer with room is read again as it is, if it has
  -- a certificate, a type with a name and at most 100 URLs, its texts fit the arrays, cJSON is lawful
  -- and memory can be had.
  pub extract_license_config-create_license_config :
      (c : LicenseConfig) (certificate type_name : Bytes) (n k output_buf_size : ℕ)
      → IsLawful j
      → 0 < rsize_max_str
      → ((m : ℕ) → allocates m ≡ true)
      → c.isv_certificate ≡ some certificate
      → get_license_type_string c.license_type ≡ some type_name
      → length (c_string c.license_name) ≤ 256
      → length (c_string c.license_version) ≤ 32
      → UrlsFit c.license_url_list
      → length certificate < 2 ^ 64
      → length c.license_url_list ≤ 100
      → Prints j n (config_value c certificate type_name)
      → n ≤ output_buf_size
      → n < 2 ^ 64
      → (buf : Bytes) × (create_license_config j rsize_max_str
            (some c)
            output_buf_size
            (some (zeros k))
          ≡ ok buf)
        × (read : LicenseConfig) × (extract_license_config j rsize_max_str allocates
              (some buf)
              cleared_config
            ≡ ok read)
        × (config_content read ≡ config_content c)
  unfolding create_license_config
  extract_license_config-create_license_config c certificate type_name n k output_buf_size lawful
        r_pos room cert typ f g urls_fit small few prints fits within =
      let (d, made, e) = config_document-view j lawful c certificate type_name cert typ in
      let (buf, printed, parsed) =
        print_item-parse j rsize_max_str d (config_value c certificate type_name) n k
          output_buf_size prints e r_pos fits within in
      let urls : List Json = map url_value c.license_url_list in
      let tree : Json = object (named (codes "url_") 0 urls) in
      let counted = length-map url_value c.license_url_list in
      let (read_urls, u, same) =
        extract_urls-content rsize_max_str allocates r_pos room tree 0 c.license_url_list
          (Finds-named (codes "url_") 0 urls (omega (arith, counted, few))) urls_fit in
      let rounds = count-named (codes "url_") 0 urls ∙ counted in
      let (block, copied, same_block) =
        duplicate-some rsize_max_str allocates none certificate r_pos room small in
      (
        buf,
        rw made printed,
        _,
        read_config c certificate type_name block read_urls buf (parsed buf refl) copied
            (ap (λ n. extract_urls rsize_max_str allocates n 0 (some tree)) rounds ∙ u),
        λ i. record {
          license_name = copy_member-zeros 256 256 c.license_name f i;
          license_version = copy_member-zeros 32 32 c.license_version g i;
          usage_count = c.usage_count;
          time_limit = c.time_limit;
          license_type = map_license_type-name c.license_type type_name typ i;
          license_url_list = same i;
          isv_certificate = (ap some same_block ∙ ap text_content (sym cert)) i;
        },
      )
