-- ===== src/Models/RoundTrip.antt =====
-- A model with controlled access written by the tool and read by the runtime.
use security_addon.Base.{
  ℕ, suc, ◌+◌, ◌^◌, ◌≤◌, ◌<◌, ◌≡◌, refl, sym, ap, ◌∙◌, Bool, true, none, some, List, [], ◌∷◌, arith,
  Bytes, length, map,
}
use security_addon.Base.{codes, equal, equal_refl}
use security_addon.Memory.{c_string, zeros, memcpy_s}
use security_addon.Memory.Laws.{c_string-NulFree, c_string_self, length-c_string-le}
use security_addon.Status.{ok}
use security_addon.Strings.{safe_malloc}
use security_addon.Strings.Length.{get_string_length-exact}
use security_addon.KeyStore.Json.Laws.{c_string-memcpy_s}
use security_addon.Json.{
  text, nil, end, element_values, JsonLibrary, get_item, file_name, copy_member, duplicate,
}
use security_addon.Json.Laws.{
  IsLawful, Prints, new_object-view, new_array-view, add_strings-view, copy_member-zeros,
  duplicate-some, print_item-parse,
}
use security_addon.Licensing.Written.{text_content}
use security_addon.Models.{
  ModelFile, AccessModel, LastChar, to_int, model_strings, finish_model,
  create_controlled_access_model, read_file, extract_files, extract_controlled_access_model,
}
use security_addon.Models.Names.{FindsLast, NamesFit, AreBase, Stores-AreBase}
use security_addon.Models.Written.{
  rsize_max_mem, file_content, model_content, cleared_model, Stored, stored_content, stored_value,
  stored_elements, StoredFit, model_value, name-ne-body, Stores, add_files-view,
}

no_string : (dest : Bytes) (size : ℕ) → copy_member dest size none ≡ dest
unfolding copy_member
no_string dest size = refl

-- The name and the body of a file are found in its object.
found_name :
    (i : ℕ) (name body : Bytes)
    → get_item (some (stored_value i (name, body))) (file_name (codes "file_name_") i)
      ≡ some (text (c_string name))
unfolding get_item
found_name i name body = rw (equal_refl (file_name (codes "file_name_") i))

found_body :
    (i : ℕ) (name body : Bytes)
    → get_item (some (stored_value i (name, body))) (file_name (codes "file_body_") i)
      ≡ some (text (c_string body))
unfolding get_item
found_body i name body = rw (name-ne-body i, equal_refl (file_name (codes "file_body_") i))

module _ (rsize_max_str : ℕ) (allocates : ℕ → Bool) (r_pos : 0 < rsize_max_str)
    (room : (n : ℕ) → allocates n ≡ true) where
  read_file-content :
      (name body : Bytes)
      → length (c_string name) ≤ 256
      → length body < rsize_max_mem
      → (f : ModelFile) × (read_file rsize_max_str allocates
            (some (c_string name))
            (some (c_string body))
          ≡ ok (f ∷ []))
        × (file_content f ≡ stored_content (name, body))
  unfolding read_file safe_malloc
  read_file-content name body fits small =
      let value : Bytes = c_string body in
      let self : c_string value ≡ value = c_string_self value (c_string-NulFree body) in
      let n : ℕ = length (c_string value) in
      let measured =
        (get_string_length-exact rsize_max_str r_pos value
          (omega (arith, length-c_string-le body))).0 in
      let copied = c_string-memcpy_s (n + 1) n value (omega arith) ∙ self in
      (
        record {
          model_file_name = copy_member (zeros 256) 256 (some (c_string name));
          model_file_data = some (memcpy_s (zeros (n + 1)) n value n);
          model_file_length = to_int n;
        },
        rw (room 280, measured, room (n + 1)),
        λ i. record {
          model_file_name = copy_member-zeros 256 256 name fits i;
          model_file_data = some (copied i);
          model_file_length = to_int (length (self i));
        },
      )

  extract_files-content :
      (i : ℕ) (stored : List Stored)
      → StoredFit stored
      → (files : List ModelFile) × (extract_files rsize_max_str allocates i
            (element_values (stored_elements i stored))
          ≡ ok files)
        × (map file_content files ≡ map stored_content stored)
  unfolding extract_files
  extract_files-content i [] fits = ([], refl, refl)
  extract_files-content i ((name, body) ∷ ss) fits =
      let (file, read, same) = read_file-content name body fits.0 fits.1 in
      let (files, rest, same_rest) = extract_files-content (suc i) ss fits.2 in
      (
        file ∷ files,
        rw (found_name i name body, found_body i name body, read, rest),
        λ k. same k ∷ same_rest k,
      )

  extract_model-parts :
      (j : JsonLibrary) (m : AccessModel) (certificate block buf : Bytes) (stored : List Stored)
      (files : List ModelFile)
      → j.parse buf ≡ some (model_value m certificate stored)
      → duplicate rsize_max_str allocates none (some (c_string certificate)) ≡ ok (some block)
      → extract_files rsize_max_str allocates 0 (element_values (stored_elements 0 stored))
        ≡ ok files
      → extract_controlled_access_model rsize_max_str allocates j (some buf) cleared_model
        ≡ ok record {
          signature = copy_member (zeros 256) 256 none;
          model_name = copy_member (zeros 256) 256 (some (c_string m.model_name));
          description = copy_member (zeros 256) 256 (some (c_string m.description));
          version = copy_member (zeros 32) 32 (some (c_string m.version));
          isv_certificate = some block;
          model_guid = copy_member (zeros 37) 36 (some (c_string m.model_guid));
          enc_model = files;
        }
  unfolding extract_controlled_access_model get_item equal
  extract_model-parts j m certificate block buf stored files parsed c f = rw (parsed, c, f)

-- The texts of a model fit the arrays, but for a NUL.
abbrev pub ModelFits : AccessModel → Type 0
ModelFits m =
    (length (c_string m.model_name) ≤ 256)
    × (length (c_string m.description) ≤ 256)
    × (length (c_string m.version) ≤ 32)
    × (length (c_string m.model_guid) ≤ 36)

module _ (j : JsonLibrary) (lawful : IsLawful j) (strlastchar_s : Bytes → ℕ → LastChar) where
  -- A model that the tool writes into a cleared buffer with room is read by the runtime: its texts,
  -- and each file in its place with its name without directories, its body and the body's length, but
  -- not the signature, which it has not got yet. It has a certificate, each file has a body and, by
  -- strlastchar_s, a name; the texts fit the arrays, and bodies and buffer are within the 256 MB of the
  -- safe string library; strlastchar_s finds the last '/', cJSON is lawful and memory can be had.
  pub extract_controlled_access_model-create_controlled_access_model :
      (m : AccessModel) (certificate : Bytes) (stored : List Stored)
      (rsize_max_str n k output_buf_size : ℕ) (allocates : ℕ → Bool)
      → 0 < rsize_max_str
      → ((i : ℕ) → allocates i ≡ true)
      → m.isv_certificate ≡ some certificate
      → FindsLast strlastchar_s
      → Stores j lawful strlastchar_s m.enc_model stored
      → NamesFit m.enc_model
      → ModelFits m
      → StoredFit stored
      → length certificate < 2 ^ 64
      → Prints j n (model_value m certificate stored)
      → n ≤ output_buf_size
      → output_buf_size ≤ rsize_max_mem
      → (buf : Bytes) × (create_controlled_access_model j strlastchar_s rsize_max_str
            (some m)
            output_buf_size
            (some (zeros k))
          ≡ ok buf)
        × (read : AccessModel) × (extract_controlled_access_model rsize_max_str allocates j
              (some buf)
              cleared_model
            ≡ ok read)
        × (model_content read ≡ record (model_content m) {
          signature = c_string (zeros 256);
          enc_model = map stored_content stored;
        })
        × AreBase (map stored_content stored)
  unfolding create_controlled_access_model model_strings finish_model
  extract_controlled_access_model-create_controlled_access_model m certificate stored rsize_max_str
        n k output_buf_size allocates r_pos room cert finds s names_fit fits files_fit small prints
        bounded within =
      let (d0, made, e0) = new_object-view j lawful in
      let (d1, added, e1) =
        add_strings-view j lawful d0 end
          ((codes "name", m.model_name)
            ∷ (codes "description", m.description)
            ∷ (codes "version", m.version)
            ∷ (codes "model_guid", m.model_guid)
            ∷ (codes "isv_certificate", certificate)
            ∷ [])
          e0 in
      let (d2, listed, e2) = new_array-view j lawful in
      let (d3, filled, e3) =
        add_files-view j lawful strlastchar_s d2 nil 0 m.enc_model stored e2 s in
      let d4 : j.Item = j.add_item d1 (codes "files") d3 in
      let e4 : j.view d4 ≡ model_value m certificate stored =
        lawful.adds_item d1 d3 _ (codes "files") e1 ∙ rw e3 in
      let (buf, printed, parsed) =
        print_item-parse j rsize_max_str d4 (model_value m certificate stored) n k output_buf_size
          prints e4 r_pos bounded (omega (arith, bounded, within)) in
      let (files, read, same_files) =
        extract_files-content rsize_max_str allocates r_pos room 0 stored files_fit in
      let (block, copied, same) =
        duplicate-some rsize_max_str allocates none certificate r_pos room small in
      (
        buf,
        rw (made, cert, added, listed, filled) printed,
        _,
        extract_model-parts rsize_max_str allocates r_pos room j m certificate block buf stored
            files (parsed buf refl) copied read,
        λ i. record {
          signature = c_string (no_string (zeros 256) 256 i);
          model_name = copy_member-zeros 256 256 m.model_name fits.0 i;
          description = copy_member-zeros 256 256 m.description fits.1 i;
          version = copy_member-zeros 32 32 m.version fits.2 i;
          isv_certificate = (ap some same ∙ ap text_content (sym cert)) i;
          model_guid = copy_member-zeros 37 36 m.model_guid fits.3 i;
          enc_model = same_files i;
        },
        Stores-AreBase j lawful strlastchar_s finds m.enc_model stored s names_fit,
      )
