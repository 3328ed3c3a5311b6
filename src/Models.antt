-- ===== src/Models.antt =====
-- Models with controlled access as JSON texts: Ovsa_tool/src/app/json.c,
-- `ovsa_json_create_controlled_access_model`, and `ovsa_json_extract_controlled_access_model`, by
-- which the runtime reads them. `strlastchar_s` of the safe string library is a parameter.
pub mod Lost
pub mod Written
pub mod Names
pub mod RoundTrip
pub mod Tests
use security_addon.Base.{
  ℕ, zero, suc, ◌+◌, ◌-◌, ◌*◌, ◌/◌, ◌%◌, ◌^◌, ◌≤◌, ◌<◌, min, ◌≡◌, refl, sym, ap, ◌∙◌, ◌≢◌, ◌⊎◌, inl,
  inr, Bool, true, false, not, ◌&&◌, ◌||◌, Option, none, some, List, [], ◌∷◌, ◌++◌, append-nil,
  append_assoc, arith, ltb, leb, ◌==◌, if◌then◌else◌, Bytes, Bool-cases, Option-cases, length, take,
  drop, map,
}
use security_addon.Base.{codes, equal}
use security_addon.Base.Int.{ℤ, pos, negsuc}
use security_addon.Memory.{strnlen_s, memcpy_s, zeros}
use security_addon.Status.{Result, fault, ok, err, ◌>>=◌, ◌>>◌, json_invalid_input}
use security_addon.Strings.{get_string_length, safe_malloc}
use security_addon.Json.{
  Json, get_item, valuestring, child_values, JsonLibrary, file_name, copy_member, duplicate,
  add_strings, new_object, new_array, print_item, read_json,
}

-- ovsa_model_files_t but for `next`.
pub record ModelFile : Type 0 where
  pub model_file_name : Bytes
  pub model_file_data : Option Bytes
  pub model_file_length : ℤ

-- ovsa_controlled_access_model_sig_t with the model in it.
pub record AccessModel : Type 0 where
  pub signature : Bytes
  pub model_name : Bytes
  pub description : Bytes
  pub version : Bytes
  pub isv_certificate : Option Bytes
  pub model_guid : Bytes
  pub enc_model : List ModelFile

-- What `strlastchar_s` finds: the place of the last such character, none (ESNOTFND), or a violated
-- constraint.
pub data LastChar : Type 0 where
  last_at : ℕ → LastChar
  not_found violated : LastChar

-- The name of a file without its directories.
abbrev pub base_name : LastChar → Bytes → Option Bytes
base_name (last_at i) name = some (drop (i + 1) name)
base_name not_found name = some name
base_name violated name = none

-- `(int)n` of a size_t.
unfoldable pub to_int : ℕ → ℤ
to_int n = let m = n % 2 ^ 32 in if ltb m (2 ^ 31) then pos m else negsuc (2 ^ 32 - 1 - m)

infixl 5 ◌>>=?◌
abbrev pub ◌>>=?◌ {ℓ κ} : {A : Type ℓ} {B : Type κ} → Option A → (A → Option B) → Option B
none >>=? next = none
some a >>=? next = next a

module _ (j : JsonLibrary) (strlastchar_s : Bytes → ℕ → LastChar) where
  -- The file's name and body, under numbered names, in an object; `none` is a failure.
  unfoldable pub enc_file : ℕ → ModelFile → Option j.Item
  enc_file i file = j.create_object >>=? λ made.
      base_name (strlastchar_s file.model_file_name (strnlen_s file.model_file_name 256))
        file.model_file_name
      >>=? λ name. j.create_string (some name) >>=? λ file_name_item.
          j.create_string file.model_file_data >>=? λ body. some (
            j.add_item (j.add_item made (file_name (codes "file_name_") i) file_name_item)
              (file_name (codes "file_body_") i) body)

  -- The loop over the files, from number i on.
  unfoldable pub add_files : j.Item → ℕ → List ModelFile → Option j.Item
  add_files model_files i [] = some model_files
  add_files model_files i (file ∷ list) =
      enc_file i file >>=? λ item. add_files (j.append_item model_files item) (suc i) list

  unfoldable pub model_strings : AccessModel → Result j.Item
  model_strings model = do
    made ← new_object j
    add_strings j made (
        (codes "name", some model.model_name)
        ∷ (codes "description", some model.description)
        ∷ (codes "version", some model.version)
        ∷ (codes "model_guid", some model.model_guid)
        ∷ (codes "isv_certificate", model.isv_certificate)
        ∷ [])

  -- The end of the function. The loop's own `ret` hides the function's, which is still OVSA_OK where
  -- the loop has failed and jumped to the end: nothing is printed then.
  unfoldable pub finish_model : ℕ → j.Item → Option j.Item → ℕ → Bytes → Result Bytes
  finish_model rsize_max_str named none output_buf_size output_buf = ok output_buf
  finish_model rsize_max_str named (some model_files) output_buf_size output_buf =
      print_item j rsize_max_str (j.add_item named (codes "files") model_files) output_buf
        output_buf_size

  -- `ovsa_json_create_controlled_access_model`
  unfoldable pub create_controlled_access_model :
      ℕ → Option AccessModel → ℕ → Option Bytes → Result Bytes
  create_controlled_access_model rsize_max_str none output_buf_size output_buf =
      err json_invalid_input
  create_controlled_access_model rsize_max_str (some model) output_buf_size none =
      err json_invalid_input
  create_controlled_access_model rsize_max_str (some model) output_buf_size (some output_buf) = do
    named ← model_strings model
    model_files ← new_array j
    finish_model rsize_max_str named (add_files model_files 0 model.enc_model) output_buf_size
        output_buf

module _ (rsize_max_str : ℕ) (allocates : ℕ → Bool) where
  -- A file out of its name and body; it is passed over where one of them is no string. 280 is
  -- sizeof(ovsa_model_files_t).
  unfoldable pub read_file : Option Bytes → Option Bytes → Result (List ModelFile)
  read_file none body = ok []
  read_file (some name) none = ok []
  read_file (some name) (some body) = do
    safe_malloc allocates 280
    str_len ← get_string_length rsize_max_str (some body)
    block ← safe_malloc allocates (str_len + 1)
    ok (
        record {
          model_file_name = copy_member (zeros 256) 256 (some name);
          model_file_data = some (memcpy_s block str_len body str_len);
          model_file_length = to_int str_len;
        }
        ∷ [])

  -- The loop over the children of `files`, from number i on.
  unfoldable pub extract_files : ℕ → List Json → Result (List ModelFile)
  extract_files i [] = ok []
  extract_files i (file ∷ files) = do
    here ←
        read_file (valuestring (get_item (some file) (file_name (codes "file_name_") i)))
          (valuestring (get_item (some file) (file_name (codes "file_body_") i)))
    rest ← extract_files (suc i) files
    ok (here ++ rest)

  -- `ovsa_json_extract_controlled_access_model`
  unfoldable pub extract_controlled_access_model :
      JsonLibrary → Option Bytes → AccessModel → Result AccessModel
  unfolding get_item copy_member duplicate
  extract_controlled_access_model j input_buf model = do
    parse_json ← read_json j input_buf
    let text = λ (key : Bytes). valuestring (get_item (some parse_json) key)
    certificate ←
        duplicate rsize_max_str allocates model.isv_certificate (text (codes "isv_certificate"))
    files ← extract_files 0 (child_values (get_item (some parse_json) (codes "files")))
    ok record {
      signature = copy_member model.signature 256 (text (codes "signature"));
      model_name = copy_member model.model_name 256 (text (codes "name"));
      description = copy_member model.description 256 (text (codes "description"));
      version = copy_member model.version 32 (text (codes "version"));
      isv_certificate = certificate;
      model_guid = copy_member model.model_guid 36 (text (codes "model_guid"));
      enc_model = files;
    }
