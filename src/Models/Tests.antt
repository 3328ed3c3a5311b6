-- ===== src/Models/Tests.antt =====
-- The theorems on models with controlled access at models with two files.
use security_addon.Base.{
  ℕ, zero, suc, ◌≡◌, refl, true, some, List, [], ◌∷◌, Bytes, arith, codes, map, ◌==◌, ◌+◌, take, ap,
  inl, inr, Bool-cases, if◌then◌else◌,
}
use security_addon.Base.Int.{pos}
use Prim.Native.String.{String}
use security_addon.Memory.{c_string, zeros, strnlen_s}
use security_addon.Status.{ok}
use security_addon.Json.{Json}
use security_addon.Json.Plain.{plain, plain-IsLawful, plain-Prints}
use security_addon.Models.{
  ModelFile, AccessModel, LastChar, last_at, not_found, violated, create_controlled_access_model,
  extract_controlled_access_model,
}
use security_addon.Models.Written.{
  model_content, cleared_model, Stored, stored_content, model_value,
}
use security_addon.Models.Lost.{create_controlled_access_model-lost}
use security_addon.Models.Names.{FoundLast, FindsLast, AreBase}
use security_addon.Models.RoundTrip.{extract_controlled_access_model-create_controlled_access_model}

-- The last '/' of a text, behind a first byte.
abbrev behind : ℕ → LastChar → LastChar
behind c (last_at i) = last_at (suc i)
behind c not_found = if c == b'/' then last_at 0 else not_found
behind c violated = violated

abbrev scan : Bytes → LastChar
scan [] = not_found
scan (c ∷ cs) = behind c (scan cs)

abbrev last_slash : Bytes → ℕ → LastChar
last_slash dest zero = violated
last_slash dest (suc n) = scan (take (suc n) (c_string dest))

behind-FoundLast :
    (c : ℕ) (cs : Bytes) (found : LastChar)
    → FoundLast cs found
    → FoundLast (c ∷ cs) (behind c found)
behind-FoundLast c cs (last_at i) (within, slash, none_behind) =
    let next : suc i + 1 ≡ suc (i + 1) = omega arith in
    (omega (arith, within), slash, rw next none_behind)
behind-FoundLast c cs not_found none_at_all = elim (Bool-cases (c == b'/')) [
  | inl e ↦ rw e (omega arith, (let same : c ≡ b'/' = ground arith in ap some same), none_at_all)
  | inr e ↦ rw e ((λ same. ground arith), none_at_all)
]
behind-FoundLast c cs violated found = tt

scan-FoundLast : (cs : Bytes) → FoundLast cs (scan cs)
scan-FoundLast [] = tt
scan-FoundLast (c ∷ cs) = behind-FoundLast c cs (scan cs) (scan-FoundLast cs)

last_slash-FindsLast : FindsLast last_slash
last_slash-FindsLast dest zero = tt
last_slash-FindsLast dest (suc n) = scan-FoundLast (take (suc n) (c_string dest))

abbrev file : String → String → ModelFile
file name body = record {
  model_file_name = codes name;
  model_file_data = some (codes body);
  model_file_length = pos 0;
}

abbrev two_files : AccessModel
two_files = record {
  signature = [];
  model_name = codes "face";
  description = codes "d";
  version = codes "1";
  isv_certificate = some (codes "cert");
  model_guid = codes "g";
  enc_model = file "d/f.xml" "x" ∷ file "f.bin" "y" ∷ [];
}

abbrev two_stored : List Stored
two_stored = (codes "f.xml", codes "x") ∷ (codes "f.bin", codes "y") ∷ []

abbrev two_value : Json
two_value = model_value two_files (codes "cert") two_stored

extract_controlled_access_model-create_controlled_access_model_example :
    (buf : Bytes) × (create_controlled_access_model
        (plain (λ _. two_value))
        last_slash
        100
        (some two_files)
        4096
        (some (zeros 4096))
      ≡ ok buf)
    × (read : AccessModel) × (extract_controlled_access_model 100
          (λ _. true)
          (plain (λ _. two_value))
          (some buf)
          cleared_model
        ≡ ok read)
    × (model_content read ≡ record (model_content two_files) {
      signature = c_string (zeros 256);
      enc_model = map stored_content two_stored;
    })
    × AreBase (map stored_content two_stored)
unfolding strnlen_s
extract_controlled_access_model-create_controlled_access_model_example =
    extract_controlled_access_model-create_controlled_access_model (plain (λ _. two_value))
      (plain-IsLawful (λ _. two_value)) last_slash two_files (codes "cert") two_stored 100 1 4096
      4096 (λ _. true) (omega arith) (λ _. refl) refl last_slash-FindsLast
      (refl, refl, (refl, refl, tt)) (omega arith, (omega arith, tt))
      (omega arith, omega arith, omega arith, omega arith)
      (omega arith, omega arith, (omega arith, omega arith, tt)) (omega arith)
      (plain-Prints (λ _. two_value) two_value refl) (omega arith) (omega arith)

-- The second file has no name.
abbrev nameless : AccessModel
nameless = record two_files { enc_model = file "f.xml" "x" ∷ file "" "y" ∷ [] }

create_controlled_access_model-lost_example :
    create_controlled_access_model
      (plain (λ _. two_value))
      last_slash
      100
      (some nameless)
      4
      (some (codes "junk"))
    ≡ ok (codes "junk")
unfolding strnlen_s
create_controlled_access_model-lost_example =
    create_controlled_access_model-lost (plain (λ _. two_value)) last_slash nameless
      (file "f.xml" "x" ∷ []) [] (file "" "y") (codes "cert") (codes "junk") 100 4
      (plain-IsLawful (λ _. two_value)) refl refl refl
