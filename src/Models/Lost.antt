-- ===== src/Models/Lost.antt =====
-- The failure of a file that the writing of a model does not report.
use security_addon.Base.{
  ℕ, suc, ◌≡◌, refl, inl, inr, Option, none, some, List, [], ◌∷◌, ◌++◌, Bytes, Option-cases,
}
use security_addon.Base.{codes}
use security_addon.Memory.{strnlen_s}
use security_addon.Status.{ok}
use security_addon.Json.{JsonLibrary, end}
use security_addon.Json.Laws.{IsLawful, new_object-view, new_array-view, add_strings-view}
use security_addon.Models.{
  ModelFile, AccessModel, LastChar, base_name, enc_file, add_files, model_strings, finish_model,
  create_controlled_access_model,
}

module _ (j : JsonLibrary) (strlastchar_s : Bytes → ℕ → LastChar) where
  enc_file-none :
      (i : ℕ) (file : ModelFile) (made : Option j.Item)
      → base_name
          (strlastchar_s file.model_file_name (strnlen_s file.model_file_name 256))
          file.model_file_name
        ≡ none
      → j.create_object ≡ made
      → enc_file j strlastchar_s i file ≡ none
  unfolding enc_file
  enc_file-none i file none bad e = rw e
  enc_file-none i file (some d) bad e = rw (e, bad)

  add_files-none :
      (d : j.Item) (i : ℕ) (before after : List ModelFile) (file : ModelFile)
      → base_name
          (strlastchar_s file.model_file_name (strnlen_s file.model_file_name 256))
          file.model_file_name
        ≡ none
      → add_files j strlastchar_s d i (before ++ file ∷ after) ≡ none
  unfolding add_files
  add_files-none d i [] after file bad = rw (enc_file-none i file j.create_object bad refl)
  add_files-none d i (f ∷ before) after file bad =
      elim (Option-cases (enc_file j strlastchar_s i f)) [
        | inl e ↦ rw e
        | inr (item, e) ↦ rw e (add_files-none (j.append_item d item) (suc i) before after file bad)
      ]

  -- If one file has no name in the sense of strlastchar_s, as where its name is empty, the writing of
  -- the model returns OVSA_OK and leaves the buffer as it was, whatever the other files are. cJSON is
  -- lawful, and the model has a certificate.
  pub create_controlled_access_model-lost :
      (model : AccessModel) (before after : List ModelFile) (file : ModelFile)
      (certificate output_buf : Bytes) (rsize_max_str output_buf_size : ℕ)
      → IsLawful j
      → model.isv_certificate ≡ some certificate
      → model.enc_model ≡ before ++ file ∷ after
      → base_name
          (strlastchar_s file.model_file_name (strnlen_s file.model_file_name 256))
          file.model_file_name
        ≡ none
      → create_controlled_access_model j strlastchar_s rsize_max_str
          (some model)
          output_buf_size
          (some output_buf)
        ≡ ok output_buf
  unfolding create_controlled_access_model model_strings finish_model
  create_controlled_access_model-lost model before after file certificate output_buf rsize_max_str
        output_buf_size lawful cert split bad =
      let (d0, made, e0) = new_object-view j lawful in
      let (d1, added, e1) =
        add_strings-view j lawful d0 end
          ((codes "name", model.model_name)
            ∷ (codes "description", model.description)
            ∷ (codes "version", model.version)
            ∷ (codes "model_guid", model.model_guid)
            ∷ (codes "isv_certificate", certificate)
            ∷ [])
          e0 in
      let (d2, listed, e2) = new_array-view j lawful in
      rw (made, cert, added, listed, split, add_files-none d2 0 before after file bad)
