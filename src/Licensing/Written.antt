-- ===== src/Licensing/Written.antt =====
-- What a license says, and the value that its writing makes.
use security_addon.Base.{
  ℕ, suc, ◌≡◌, refl, sym, ap, ◌∙◌, Option, none, some, List, [], ◌∷◌, Bytes, map,
}
use security_addon.Base.{codes}
use security_addon.Memory.{c_string}
use security_addon.Status.{ok}
use security_addon.Json.{Json, text, number, object, Members, end, member, JsonLibrary, file_name}
use security_addon.Json.Laws.{
  IsLawful, join, one, new_object-view, join_assoc, join_end, add_strings-view,
}
use security_addon.Licensing.{ServUrl, LicenseSig, get_license_type_string}
use security_addon.Licensing.Write.{struct_url, add_urls, add_sigs, license_document}
use security_addon.Licensing.Names.{named, c_string-file_name_url, c_string-file_name_sig}

-- An entry, and a license, with its texts alone in the place of its arrays.
abbrev pub url_content : ServUrl → ServUrl
url_content u = record {
  license_serv_url = c_string u.license_serv_url;
  cur_cert_hash = c_string u.cur_cert_hash;
  fut_cert_hash = c_string u.fut_cert_hash;
}

abbrev pub text_content : Option Bytes → Option Bytes
text_content none = none
text_content (some t) = some (c_string t)

abbrev pub content : LicenseSig → LicenseSig
content lic = record {
  signature = c_string lic.signature;
  license_name = c_string lic.license_name;
  license_version = c_string lic.license_version;
  creation_date = c_string lic.creation_date;
  model_hash = c_string lic.model_hash;
  encryption_key = c_string lic.encryption_key;
  license_type = lic.license_type;
  usage_count = lic.usage_count;
  time_limit = lic.time_limit;
  license_guid = c_string lic.license_guid;
  model_guid = c_string lic.model_guid;
  isv_certificate = text_content lic.isv_certificate;
  license_url_list = map url_content lic.license_url_list;
  tcb_signatures = map text_content lic.tcb_signatures;
}

abbrev pub url_value : ServUrl → Json
url_value u = object (
    member (codes "url") (text (c_string u.license_serv_url)) (
      member (codes "cur_cert_hash") (text (c_string u.cur_cert_hash))
        (member (codes "fut_cert_hash") (text (c_string u.fut_cert_hash)) end)))

abbrev pub sig_value : Bytes → Json
sig_value sig = text (c_string sig)

-- The members of a license with a certificate, the name of its type, and TCBs.
abbrev pub license_members : LicenseSig → Bytes → Bytes → List Bytes → Members
license_members lic certificate type_name sigs =
    member (codes "creation_date") (text (c_string lic.creation_date)) (
      member (codes "isv_certificate") (text (c_string certificate)) (
        member (codes "model_hash") (text (c_string lic.model_hash)) (
          member (codes "license_name") (text (c_string lic.license_name)) (
            member (codes "license_version") (text (c_string lic.license_version)) (
              member (codes "license_guid") (text (c_string lic.license_guid)) (
                member (codes "model_guid") (text (c_string lic.model_guid)) (
                  member (codes "encryption_key") (text (c_string lic.encryption_key)) (
                    member (codes "license_serv_url")
                      (object (named (codes "url_") 0 (map url_value lic.license_url_list)))
                      (member (codes "license_type") (text (c_string type_name)) (
                        member (codes "usage_count") (number lic.usage_count) (
                          member (codes "time_limit") (number lic.time_limit) (
                            member (codes "tcb_signature")
                              (object (named (codes "sig_") 0 (map sig_value sigs))) end))))))))))))

module _ (j : JsonLibrary) (lawful : IsLawful j) where
  struct_url-view :
      (u : ServUrl) → (d : j.Item) × (struct_url j u ≡ ok d) × (j.view d ≡ url_value u)
  unfolding struct_url
  struct_url-view u =
      let (d0, made, e0) = new_object-view j lawful in
      let (s1, made1, e1) = lawful.makes_string u.license_serv_url in
      let (s2, made2, e2) = lawful.makes_string u.cur_cert_hash in
      let (s3, made3, e3) = lawful.makes_string u.fut_cert_hash in
      let d1 : j.Item = j.add_item d0 (codes "url") s1 in
      let d2 : j.Item = j.add_item d1 (codes "cur_cert_hash") s2 in
      let v1 = lawful.adds_item d0 s1 end (codes "url") e0 in
      let v2 = lawful.adds_item d1 s2 _ (codes "cur_cert_hash") v1 in
      let v3 = lawful.adds_item d2 s3 _ (codes "fut_cert_hash") v2 in
      (
        j.add_item d2 (codes "fut_cert_hash") s3,
        rw (made, made1, made2, made3),
        v3 ∙ rw (e1, e2, e3),
      )

  pub add_urls-view :
      (d : j.Item) (ms : Members) (i : ℕ) (urls : List ServUrl)
      → j.view d ≡ object ms
      → (d' : j.Item) × (add_urls j d i urls ≡ ok d')
        × (j.view d' ≡ object (join ms (named (codes "url_") i (map url_value urls))))
  unfolding add_urls
  add_urls-view d ms i [] e = (d, refl, e ∙ ap object (sym (join_end ms)))
  add_urls-view d ms i (u ∷ urls) e =
      let (made, done, v) = struct_url-view u in
      let name : Bytes = file_name (codes "url_") i in
      let next : j.view (j.add_item d name made) ≡ object (join ms (one name (url_value u))) =
        lawful.adds_item d made ms name e ∙ rw (c_string-file_name_url i, v) in
      let (d', rest, v') = add_urls-view (j.add_item d name made) _ (suc i) urls next in
      (d', rw done rest, v' ∙ ap object (join_assoc ms (one name (url_value u)) _))

  add_sigs-view :
      (d : j.Item) (ms : Members) (i : ℕ) (sigs : List Bytes)
      → j.view d ≡ object ms
      → (d' : j.Item) × (add_sigs j d i (map some sigs) ≡ ok d')
        × (j.view d' ≡ object (join ms (named (codes "sig_") i (map sig_value sigs))))
  unfolding add_sigs
  add_sigs-view d ms i [] e = (d, refl, e ∙ ap object (sym (join_end ms)))
  add_sigs-view d ms i (sig ∷ sigs) e =
      let (made, done, v) = lawful.makes_string sig in
      let name : Bytes = file_name (codes "sig_") i in
      let next : j.view (j.add_item d name made) ≡ object (join ms (one name (sig_value sig))) =
        lawful.adds_item d made ms name e ∙ rw (c_string-file_name_sig i, v) in
      let (d', rest, v') = add_sigs-view (j.add_item d name made) _ (suc i) sigs next in
      (d', rw done rest, v' ∙ ap object (join_assoc ms (one name (sig_value sig)) _))

  -- The value of a license's object: it can be made if the license has a certificate and a type with
  -- a name, and each of its TCBs a text.
  pub license_document-view :
      (lic : LicenseSig) (certificate type_name : Bytes) (sigs : List Bytes)
      → lic.isv_certificate ≡ some certificate
      → get_license_type_string lic.license_type ≡ some type_name
      → lic.tcb_signatures ≡ map some sigs
      → (d : j.Item) × (license_document j lic ≡ ok d)
        × (j.view d ≡ object (license_members lic certificate type_name sigs))
  unfolding license_document
  license_document-view lic certificate type_name sigs cert typ tcbs =
      let (d0, made, e0) = new_object-view j lawful in
      let (d1, named1, e1) =
        add_strings-view j lawful d0 end
          ((codes "creation_date", lic.creation_date)
            ∷ (codes "isv_certificate", certificate)
            ∷ (codes "model_hash", lic.model_hash)
            ∷ (codes "license_name", lic.license_name)
            ∷ (codes "license_version", lic.license_version)
            ∷ (codes "license_guid", lic.license_guid)
            ∷ (codes "model_guid", lic.model_guid)
            ∷ (codes "encryption_key", lic.encryption_key)
            ∷ [])
          e0 in
      let (urls, filled, eu) = add_urls-view d0 end 0 lic.license_url_list e0 in
      let e2 = lawful.adds_item d1 urls _ (codes "license_serv_url") e1 in
      let (d3, typed, e3) =
        add_strings-view j lawful (j.add_item d1 (codes "license_serv_url") urls) _
          ((codes "license_type", type_name) ∷ []) e2 in
      let (d4, counted, e4) = lawful.adds_number d3 _ (codes "usage_count") lic.usage_count e3 in
      let (d5, limited, e5) = lawful.adds_number d4 _ (codes "time_limit") lic.time_limit e4 in
      let (list, listed, el) = add_sigs-view d0 end 0 sigs e0 in
      let e6 = lawful.adds_item d5 list _ (codes "tcb_signature") e5 in
      (
        j.add_item d5 (codes "tcb_signature") list,
        rw (made, cert, named1, filled, typ, typed, counted, limited, tcbs, listed),
        e6 ∙ rw (eu, el),
      )
