-- ===== src/Licensing/RoundTrip.antt =====
-- A license that the tool has written and the license service reads.
use security_addon.Base.{
  ℕ, suc, ◌^◌, ◌≤◌, ◌<◌, ◌≡◌, refl, sym, ap, ◌∙◌, Bool, true, Option, none, some, List, [], ◌∷◌,
  arith, Bytes, length, map,
}
use security_addon.Base.{codes, equal}
use security_addon.Base.Int.{pos}
use security_addon.Memory.{c_string, zeros}
use security_addon.Status.{ok}
use security_addon.Strings.{safe_malloc}
use security_addon.Json.{Json, object, JsonLibrary, get_item, count_members, copy_member, duplicate}
use security_addon.Json.Laws.{IsLawful, Prints, copy_member-zeros, duplicate-some, print_item-parse}
use security_addon.Licensing.{
  LicenseType, sale, instance_limit, time_limit, max_license_type, ServUrl, LicenseSig,
  get_license_type_string, map_license_type,
}
use security_addon.Licensing.Write.{create_customer_license}
use security_addon.Licensing.Read.{
  extract_url, extract_urls, extract_sigs, extract_license, service_extract_license,
}
use security_addon.Licensing.Names.{named, Finds, Finds-named}
use security_addon.Licensing.Written.{
  url_content, text_content, content, url_value, sig_value, license_members, license_document-view,
}

-- The struct that a caller has cleared, by the sizes of the signature and the encryption key.
abbrev pub cleared_license : ℕ → ℕ → LicenseSig
cleared_license max_signature_size max_ekey_size = record {
  signature = zeros max_signature_size;
  license_name = zeros 256;
  license_version = zeros 32;
  creation_date = zeros 256;
  model_hash = zeros 192;
  encryption_key = zeros max_ekey_size;
  license_type = sale;
  usage_count = pos 0;
  time_limit = pos 0;
  license_guid = zeros 37;
  model_guid = zeros 37;
  isv_certificate = none;
  license_url_list = [];
  tcb_signatures = [];
}

-- The texts of a license fit the arrays of the reader, all but a NUL where the array has no more room.
abbrev pub UrlsFit : List ServUrl → Type 0
UrlsFit [] = Unit
UrlsFit (u ∷ urls) =
    (length (c_string u.license_serv_url) ≤ 2048)
    × (length (c_string u.cur_cert_hash) ≤ 192)
    × (length (c_string u.fut_cert_hash) ≤ 192)
    × UrlsFit urls

abbrev pub SigsFit : List Bytes → Type 0
SigsFit [] = Unit
SigsFit (sig ∷ sigs) = (length sig < 2 ^ 64) × SigsFit sigs

abbrev pub TextsFit : ℕ → LicenseSig → Type 0
TextsFit max_ekey_size lic =
    (length (c_string lic.license_name) ≤ 256)
    × (length (c_string lic.license_version) ≤ 32)
    × (length (c_string lic.creation_date) ≤ 256)
    × (length (c_string lic.model_hash) ≤ 192)
    × (length (c_string lic.encryption_key) ≤ max_ekey_size)
    × (length (c_string lic.license_guid) ≤ 36)
    × (length (c_string lic.model_guid) ≤ 36)
    × UrlsFit lic.license_url_list

pub count-named :
    (prefix : Bytes) (i : ℕ) (vs : List Json) → count_members (named prefix i vs) ≡ length vs
count-named prefix i [] = refl
count-named prefix i (v ∷ vs) = ap suc (count-named prefix (suc i) vs)

pub length-map {ℓ κ} :
    {A : Type ℓ} {B : Type κ} (f : A → B) (xs : List A) → length (map f xs) ≡ length xs
length-map f [] = refl
length-map f (x ∷ xs) = ap suc (length-map f xs)

-- The name of a type is read as the type.
pub map_license_type-name :
    (t : LicenseType) (name : Bytes)
    → get_license_type_string t ≡ some name
    → map_license_type (c_string name) ≡ t
unfolding get_license_type_string map_license_type
map_license_type-name sale name e = let same : codes "Sale" ≡ name = cc in rw (sym same)
map_license_type-name instance_limit name e =
    let same : codes "InstanceLimit" ≡ name = cc in rw (sym same)
map_license_type-name time_limit name e = let same : codes "TimeLimit" ≡ name = cc in rw (sym same)
map_license_type-name max_license_type name e = absurd (cc)

copy_member-none : (dest : Bytes) (size : ℕ) → copy_member dest size none ≡ dest
unfolding copy_member
copy_member-none dest size = refl

extract_url-content :
    (u : ServUrl)
    → length (c_string u.license_serv_url) ≤ 2048
    → length (c_string u.cur_cert_hash) ≤ 192
    → length (c_string u.fut_cert_hash) ≤ 192
    → url_content (extract_url (some (url_value u))) ≡ url_content u
unfolding extract_url get_item equal
extract_url-content u a b c = λ i. record {
  license_serv_url = copy_member-zeros 2048 2048 u.license_serv_url a i;
  cur_cert_hash = copy_member-zeros 192 192 u.cur_cert_hash b i;
  fut_cert_hash = copy_member-zeros 192 192 u.fut_cert_hash c i;
}

-- The struct that results.
abbrev read_fields :
    ℕ → ℕ → LicenseSig → Bytes → Bytes → List ServUrl → List (Option Bytes) → LicenseSig
read_fields max_signature_size max_ekey_size lic type_name block read_urls read_sigs = record {
  signature = copy_member (zeros max_signature_size) max_signature_size none;
  license_name = copy_member (zeros 256) 256 (some (c_string lic.license_name));
  license_version = copy_member (zeros 32) 32 (some (c_string lic.license_version));
  creation_date = copy_member (zeros 256) 256 (some (c_string lic.creation_date));
  model_hash = copy_member (zeros 192) 192 (some (c_string lic.model_hash));
  encryption_key =
      copy_member (zeros max_ekey_size) max_ekey_size (some (c_string lic.encryption_key));
  license_type = map_license_type (c_string type_name);
  usage_count = lic.usage_count;
  time_limit = lic.time_limit;
  license_guid = copy_member (zeros 37) 36 (some (c_string lic.license_guid));
  model_guid = copy_member (zeros 37) 36 (some (c_string lic.model_guid));
  isv_certificate = some block;
  license_url_list = read_urls;
  tcb_signatures = read_sigs;
}

module _ (rsize_max_str : ℕ) (allocates : ℕ → Bool) (r_pos : 0 < rsize_max_str)
    (room : (n : ℕ) → allocates n ≡ true) where
  pub extract_urls-content :
      (value : Json) (i : ℕ) (urls : List ServUrl)
      → Finds value (codes "url_") i (map url_value urls)
      → UrlsFit urls
      → (read : List ServUrl) × (extract_urls rsize_max_str allocates (length urls) i (some value)
          ≡ ok read)
        × (map url_content read ≡ map url_content urls)
  unfolding extract_urls safe_malloc
  extract_urls-content value i [] finds fits = ([], refl, refl)
  extract_urls-content value i (u ∷ urls) finds fits =
      let (read, rest, same) = extract_urls-content value (suc i) urls finds.1 fits.3 in
      let (a, b, c, others) = fits in
      let head = extract_url-content u a b c in
      (extract_url (some (url_value u)) ∷ read, rw (room 2440, rest, finds.0), λ k. head k ∷ same k)

  extract_sigs-content :
      (value : Json) (i : ℕ) (sigs : List Bytes)
      → Finds value (codes "sig_") i (map sig_value sigs)
      → SigsFit sigs
      → (read : List (Option Bytes)) × (extract_sigs rsize_max_str allocates
            (length sigs)
            i
            (some value)
          ≡ ok read)
        × (map text_content read ≡ map text_content (map some sigs))
  unfolding extract_sigs safe_malloc
  extract_sigs-content value i [] finds fits = ([], refl, refl)
  extract_sigs-content value i (sig ∷ sigs) finds fits =
      let (read, rest, same) = extract_sigs-content value (suc i) sigs finds.1 fits.1 in
      let (block, copied, e) = duplicate-some rsize_max_str allocates none sig r_pos room fits.0 in
      (some block ∷ read, rw (room 16, finds.0, copied, rest), λ k. some (e k) ∷ same k)

  extract_license-parts :
      (max_signature_size max_ekey_size : ℕ) (lic : LicenseSig) (certificate type_name : Bytes)
      (sigs : List Bytes) (block : Bytes) (read_urls : List ServUrl)
      (read_sigs : List (Option Bytes))
      → duplicate rsize_max_str allocates none (some (c_string certificate)) ≡ ok (some block)
      → extract_urls rsize_max_str allocates
          (count_members (named (codes "url_") 0 (map url_value lic.license_url_list)))
          0
          (some (object (named (codes "url_") 0 (map url_value lic.license_url_list))))
        ≡ ok read_urls
      → extract_sigs rsize_max_str allocates
          (count_members (named (codes "sig_") 0 (map sig_value sigs)))
          0
          (some (object (named (codes "sig_") 0 (map sig_value sigs))))
        ≡ ok read_sigs
      → extract_license rsize_max_str allocates max_signature_size max_ekey_size
          (object (license_members lic certificate type_name sigs))
          (cleared_license max_signature_size max_ekey_size)
        ≡ ok (read_fields max_signature_size max_ekey_size lic type_name block read_urls read_sigs)
  unfolding extract_license get_item equal
  extract_license-parts max_signature_size max_ekey_size lic certificate type_name sigs block
        read_urls read_sigs c u t =
      rw (c, u, t)

  -- What is read of a license's value is what the license says.
  extract_license-content :
      (max_signature_size max_ekey_size : ℕ) (lic : LicenseSig) (certificate type_name : Bytes)
      (sigs : List Bytes)
      → lic.isv_certificate ≡ some certificate
      → get_license_type_string lic.license_type ≡ some type_name
      → lic.tcb_signatures ≡ map some sigs
      → TextsFit max_ekey_size lic
      → length certificate < 2 ^ 64
      → SigsFit sigs
      → length lic.license_url_list ≤ 100
      → length sigs ≤ 100
      → (read : LicenseSig) × (extract_license rsize_max_str allocates max_signature_size
            max_ekey_size
            (object (license_members lic certificate type_name sigs))
            (cleared_license max_signature_size max_ekey_size)
          ≡ ok read)
        × (content read ≡ record (content lic) { signature = c_string (zeros max_signature_size) })
  extract_license-content max_signature_size max_ekey_size lic certificate type_name sigs cert typ
        tcbs fits cert_fits sigs_fit few_urls few_sigs =
      let urls : List Json = map url_value lic.license_url_list in
      let tcb : List Json = map sig_value sigs in
      let count_urls : count_members (named (codes "url_") 0 urls) ≡ length lic.license_url_list =
        count-named (codes "url_") 0 urls ∙ length-map url_value lic.license_url_list in
      let count_sigs : count_members (named (codes "sig_") 0 tcb) ≡ length sigs =
        count-named (codes "sig_") 0 tcb ∙ length-map sig_value sigs in
      let (read_urls, u_done, u_same) =
        extract_urls-content (object (named (codes "url_") 0 urls)) 0 lic.license_url_list
          (Finds-named (codes "url_") 0 urls
            (omega (arith, length-map url_value lic.license_url_list, few_urls)))
          fits.7 in
      let (read_sigs, s_done, s_same) =
        extract_sigs-content (object (named (codes "sig_") 0 tcb)) 0 sigs
          (Finds-named (codes "sig_") 0 tcb (omega (arith, length-map sig_value sigs, few_sigs)))
          sigs_fit in
      let (block, c_done, c_same) =
        duplicate-some rsize_max_str allocates none certificate r_pos room cert_fits in
      let copied = copy_member-zeros in
      (
        read_fields max_signature_size max_ekey_size lic type_name block read_urls read_sigs,
        extract_license-parts max_signature_size max_ekey_size lic certificate type_name sigs block
            read_urls read_sigs c_done
            (ap
                (λ n.
                  extract_urls rsize_max_str allocates n 0
                    (some (object (named (codes "url_") 0 urls))))
                count_urls
              ∙ u_done)
            (ap
                (λ n.
                  extract_sigs rsize_max_str allocates n 0
                    (some (object (named (codes "sig_") 0 tcb))))
                count_sigs
              ∙ s_done),
        λ i. record {
          signature = c_string (copy_member-none (zeros max_signature_size) max_signature_size i);
          license_name = copied 256 256 lic.license_name fits.0 i;
          license_version = copied 32 32 lic.license_version fits.1 i;
          creation_date = copied 256 256 lic.creation_date fits.2 i;
          model_hash = copied 192 192 lic.model_hash fits.3 i;
          encryption_key = copied max_ekey_size max_ekey_size lic.encryption_key fits.4 i;
          license_type = map_license_type-name lic.license_type type_name typ i;
          usage_count = lic.usage_count;
          time_limit = lic.time_limit;
          license_guid = copied 37 36 lic.license_guid fits.5 i;
          model_guid = copied 37 36 lic.model_guid fits.6 i;
          isv_certificate = (ap some c_same ∙ ap text_content (sym cert)) i;
          license_url_list = u_same i;
          tcb_signatures = (s_same ∙ ap (map text_content) (sym tcbs)) i;
        },
      )

module _ (j : JsonLibrary) (lawful : IsLawful j) (rsize_max_str : ℕ) (allocates : ℕ → Bool)
    (r_pos : 0 < rsize_max_str) (room : (n : ℕ) → allocates n ≡ true) where
  -- A license that the tool writes into a cleared buffer with room is read by the license service as
  -- it is, but for the signature, which it has not got yet. cJSON is lawful and memory can be had;
  -- the license has a certificate, a type with a name, at most 100 URLs and 100 TCBs, each TCB with a
  -- text; and its texts fit the arrays of the license service.
  pub service_extract_license-create_customer_license :
      (lic : LicenseSig) (certificate type_name : Bytes) (sigs : List Bytes)
      (n k outputbuf_size : ℕ)
      → lic.isv_certificate ≡ some certificate
      → get_license_type_string lic.license_type ≡ some type_name
      → lic.tcb_signatures ≡ map some sigs
      → TextsFit 128 lic
      → length certificate < 2 ^ 64
      → SigsFit sigs
      → length lic.license_url_list ≤ 100
      → length sigs ≤ 100
      → Prints j n (object (license_members lic certificate type_name sigs))
      → n ≤ outputbuf_size
      → n < 2 ^ 64
      → (buf : Bytes) × (create_customer_license j rsize_max_str
            (some lic)
            outputbuf_size
            (some (zeros k))
          ≡ ok buf)
        × (read : LicenseSig) × (service_extract_license rsize_max_str allocates j
              (some buf)
              (cleared_license 128 128)
            ≡ ok read)
        × (content read ≡ record (content lic) { signature = c_string (zeros 128) })
  unfolding create_customer_license service_extract_license
  service_extract_license-create_customer_license lic certificate type_name sigs n k outputbuf_size
        cert typ tcbs fits cert_fits sigs_fit few_urls few_sigs prints room_out small =
      let (d, made, e) =
        license_document-view j lawful lic certificate type_name sigs cert typ tcbs in
      let (buf, printed, parsed) =
        print_item-parse j rsize_max_str d (object (license_members lic certificate type_name sigs))
          n k outputbuf_size prints e r_pos room_out small in
      let (read, extracted, same) =
        extract_license-content rsize_max_str allocates r_pos room 128 128 lic certificate type_name
          sigs cert typ tcbs fits cert_fits sigs_fit few_urls few_sigs in
      (buf, rw made printed, read, rw (parsed buf refl) extracted, same)
