-- ===== src/Models/Written.antt =====
-- What a model with controlled access says, and the value that its writing makes.
use security_addon.Base.{
  ℕ, suc, ◌^◌, ◌≤◌, ◌<◌, ◌≡◌, refl, sym, ap, ◌∙◌, inl, inr, false, none, some, List, [], ◌∷◌, arith,
  Bytes, Bool-cases, length, map,
}
use security_addon.Base.{codes, equal, equal_iff}
use security_addon.Memory.{c_string, zeros, strnlen_s}
use security_addon.Json.{
  Json, text, array, object, Elements, nil, element, end, member, JsonLibrary, file_name,
}
use security_addon.Json.Laws.{IsLawful, push}
use security_addon.Licensing.Written.{text_content}
use security_addon.Models.{ModelFile, AccessModel, LastChar, base_name, to_int, enc_file, add_files}

-- Texts in the place of arrays and blocks.
abbrev pub file_content : ModelFile → ModelFile
file_content f = record f {
  model_file_name = c_string f.model_file_name;
  model_file_data = text_content f.model_file_data;
}

abbrev pub model_content : AccessModel → AccessModel
model_content m = record {
  signature = c_string m.signature;
  model_name = c_string m.model_name;
  description = c_string m.description;
  version = c_string m.version;
  isv_certificate = text_content m.isv_certificate;
  model_guid = c_string m.model_guid;
  enc_model = map file_content m.enc_model;
}

abbrev pub cleared_model : AccessModel
cleared_model = record {
  signature = zeros 256;
  model_name = zeros 256;
  description = zeros 256;
  version = zeros 32;
  isv_certificate = none;
  model_guid = zeros 37;
  enc_model = [];
}

-- A file as it is written: its name without directories, and its body.
abbrev pub Stored : Type 0
Stored = Bytes × Bytes

abbrev pub stored_content : Stored → ModelFile
stored_content (name, body) = record {
  model_file_name = c_string name;
  model_file_data = some (c_string body);
  model_file_length = to_int (length (c_string body));
}

abbrev pub stored_value : ℕ → Stored → Json
stored_value i (name, body) = object (
    member (file_name (codes "file_name_") i) (text (c_string name))
      (member (file_name (codes "file_body_") i) (text (c_string body)) end))

abbrev pub stored_elements : ℕ → List Stored → Elements
stored_elements i [] = nil
stored_elements i (s ∷ ss) = element (stored_value i s) (stored_elements (suc i) ss)

-- RSIZE_MAX_MEM of the safe string library, above which memcpy_s refuses: 256 MB.
abbrev pub rsize_max_mem : ℕ
rsize_max_mem = 2 ^ 28

abbrev pub StoredFit : List Stored → Type 0
StoredFit [] = Unit
StoredFit ((name, body) ∷ ss) =
    (length (c_string name) ≤ 256) × (length body < rsize_max_mem) × StoredFit ss

abbrev pub model_value : AccessModel → Bytes → List Stored → Json
model_value m certificate stored = object (
    member (codes "name") (text (c_string m.model_name)) (
      member (codes "description") (text (c_string m.description)) (
        member (codes "version") (text (c_string m.version)) (
          member (codes "model_guid") (text (c_string m.model_guid)) (
            member (codes "isv_certificate") (text (c_string certificate))
              (member (codes "files") (array (stored_elements 0 stored)) end))))))

-- The names of a file and its body have no NUL, and differ.
c_string-file_name_name :
    (i : ℕ) → c_string (file_name (codes "file_name_") i) ≡ file_name (codes "file_name_") i
unfolding file_name
c_string-file_name_name i = ground arith

c_string-file_name_body :
    (i : ℕ) → c_string (file_name (codes "file_body_") i) ≡ file_name (codes "file_body_") i
unfolding file_name
c_string-file_name_body i = ground arith

pub name-ne-body :
    (i : ℕ) → equal (file_name (codes "file_name_") i) (file_name (codes "file_body_") i) ≡ false
unfolding file_name
name-ne-body i =
    elim (Bool-cases
      (equal (file_name (codes "file_name_") i) (file_name (codes "file_body_") i))) [
        | inr e ↦ e
        | inl e ↦
            let same =
              (equal_iff (file_name (codes "file_name_") i) (file_name (codes "file_body_") i)).0
                e in
            absurd (ground arith)
      ]

abbrev pub join_elements : Elements → Elements → Elements
join_elements nil ws = ws
join_elements (element v vs) ws = element v (join_elements vs ws)

join_elements-push :
    (vs ws : Elements) (v : Json) → join_elements (push vs v) ws ≡ join_elements vs (element v ws)
join_elements-push nil ws v = refl
join_elements-push (element u vs) ws v = ap (element u) (join_elements-push vs ws v)

join_elements-nil : (vs : Elements) → join_elements vs nil ≡ vs
join_elements-nil nil = refl
join_elements-nil (element v vs) = ap (element v) (join_elements-nil vs)

module _ (j : JsonLibrary) (lawful : IsLawful j) (strlastchar_s : Bytes → ℕ → LastChar) where
  -- What is stored of files: each has a body, and a name in the sense of strlastchar_s.
  abbrev pub Stores : List ModelFile → List Stored → Type 0
  Stores [] [] = Unit
  Stores [] (s ∷ ss) = ⊥
  Stores (f ∷ fs) [] = ⊥
  Stores (f ∷ fs) ((name, body) ∷ ss) =
      (base_name (strlastchar_s f.model_file_name (strnlen_s f.model_file_name 256))
          f.model_file_name
        ≡ some name)
      × (f.model_file_data ≡ some body)
      × Stores fs ss

  enc_file-view :
      (i : ℕ) (f : ModelFile) (name body : Bytes)
      → base_name
          (strlastchar_s f.model_file_name (strnlen_s f.model_file_name 256))
          f.model_file_name
        ≡ some name
      → f.model_file_data ≡ some body
      → (d : j.Item) × (enc_file j strlastchar_s i f ≡ some d)
        × (j.view d ≡ stored_value i (name, body))
  unfolding enc_file
  enc_file-view i f name body named filled =
      let (d0, made, e0) = lawful.makes_object in
      let (d1, made1, e1) = lawful.makes_string name in
      let (d2, made2, e2) = lawful.makes_string body in
      let first = file_name (codes "file_name_") i in
      let second = file_name (codes "file_body_") i in
      let e3 = lawful.adds_item d0 d1 end first e0 in
      let e4 = lawful.adds_item (j.add_item d0 first d1) d2 _ second e3 in
      (
        j.add_item (j.add_item d0 first d1) second d2,
        simp (made, named, made1, filled, made2),
        e4 ∙ rw (e1, e2, c_string-file_name_name i, c_string-file_name_body i),
      )

  pub add_files-view :
      (d : j.Item) (vs : Elements) (i : ℕ) (files : List ModelFile) (stored : List Stored)
      → j.view d ≡ array vs
      → Stores files stored
      → (d' : j.Item) × (add_files j strlastchar_s d i files ≡ some d')
        × (j.view d' ≡ array (join_elements vs (stored_elements i stored)))
  unfolding add_files
  add_files-view d vs i [] [] e s = (d, refl, e ∙ ap array (sym (join_elements-nil vs)))
  add_files-view d vs i [] (x ∷ xs) e s = absurd s
  add_files-view d vs i (f ∷ fs) [] e s = absurd s
  add_files-view d vs i (f ∷ fs) ((name, body) ∷ ss) e s =
      let (item, made, v) = enc_file-view i f name body s.0 s.1 in
      let next = lawful.appends_item d item vs e ∙ ap (λ w. array (push vs w)) v in
      let (d', rest, v') = add_files-view (j.append_item d item) _ (suc i) fs ss next s.2 in
      (
        d',
        rw made rest,
        v'
            ∙ ap array
                (join_elements-push vs (stored_elements (suc i) ss) (stored_value i (name, body))),
      )
