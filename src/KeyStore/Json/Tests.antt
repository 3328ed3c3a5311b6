-- ===== src/KeyStore/Json/Tests.antt =====
-- A JSON library for the objects that arise from one list of members, and the round trips at it.
use security_addon.Base.{both}
use security_addon.Base.{
  ℕ, zero, suc, ◌-◌, ◌≡◌, refl, sym, ap, ◌∙◌, inl, inr, Bool, true, false, ◌&&◌, Option, none, some,
  List, [], ◌∷◌, ◌++◌, arith, if◌then◌else◌, Bytes, Bool-cases, take,
}
use security_addon.Base.{codes, equal, equal_iff, get_elem?}
use security_addon.Memory.{c_string, zeros}
use security_addon.Status.{ok}
use security_addon.KeyStore.Asymmetric.{IsvKeystore, cleared}
use security_addon.KeyStore.Json.{
  Member, CJson, keystore_document, create_isv_keystore, extract_pair,
}
use security_addon.KeyStore.Json.Laws.{string_member, remove, IsLawful}
use security_addon.KeyStore.Json.RoundTrip.{
  keystore_members, SameNames, SameKeys, extract_pair-create_isv_keystore,
}

abbrev same_value : Option Bytes → Bytes → Bool
same_value none value = false
same_value (some text) value = equal text value

abbrev add_next : Option Member → ℕ → Bytes → Bytes → Option ℕ
add_next none n key value = none
add_next (some m) n key value =
    if equal m.key (c_string key) && same_value m.valuestring (c_string value)
    then some (suc n)
    else none

abbrev number_of : Bytes → Option ℕ
number_of [] = none
number_of (b ∷ bs) = some (b - 1)

abbrev if_empty : List Member → Option ℕ
if_empty [] = some 0
if_empty (m ∷ ms) = none

-- Object n has the first n members of the script, and is printed as one byte.
abbrev scripted : List Member → CJson
scripted script = record {
  Doc = ℕ;
  members = λ n. take n script;
  create_object = some 0;
  add_string = λ n. add_next (get_elem? script n) n;
  detach_item = λ n key. if_empty (remove key (take n script));
  print = λ n. some (suc n ∷ []);
  parse = λ text. number_of (c_string text);
}

take-suc :
    (ms : List Member) (n : ℕ) (m : Member)
    → get_elem? ms n ≡ some m
    → take (suc n) ms ≡ take n ms ++ m ∷ []
take-suc [] n m e = absurd (cc)
take-suc (x ∷ ms) zero m e = let same : x ≡ m = cc in ap (λ y. y ∷ []) same
take-suc (x ∷ ms) (suc n) m e = ap (λ ns. x ∷ ns) (take-suc ms n m e)

one_byte : (n : ℕ) → c_string (suc n ∷ []) ≡ suc n ∷ []
one_byte n = ground arith

back : (n : ℕ) → number_of (suc n ∷ []) ≡ some n
back n = let e : suc n - 1 ≡ n = omega arith in rw e

same_value-some :
    (text : Option Bytes) (value : Bytes) → same_value text value ≡ true → text ≡ some value
same_value-some none value e = absurd (cc)
same_value-some (some text) value e = ap some ((equal_iff text value).0 e)

add_next-found :
    (found : Option Member) (n : ℕ) (key value : Bytes) {next : ℕ}
    → add_next found n key value ≡ some next
    → (found ≡ some (string_member key value)) × (next ≡ suc n)
add_next-found none n key value h = absurd (cc)
add_next-found (some m) n key value {next} h =
    let agrees : Bool = equal m.key (c_string key) && same_value m.valuestring (c_string value) in
    elim (Bool-cases agrees) [
      | inr e ↦ absurd (let failed = rw e at h in cc)
      | inl e ↦
          let (keys, values) =
            both (equal m.key (c_string key)) (same_value m.valuestring (c_string value)) e in
          let same_key = (equal_iff m.key (c_string key)).0 keys in
          let same_text = same_value-some m.valuestring (c_string value) values in
          let counted = rw e at h in
          (λ i. some (record { key = same_key i; valuestring = same_text i }), cc)
    ]

if_empty-some : (ms : List Member) {n : ℕ} → if_empty ms ≡ some n → (ms ≡ []) × (n ≡ 0)
if_empty-some [] h = (refl, cc)
if_empty-some (m ∷ ms) h = absurd (cc)

scripted-IsLawful : (script : List Member) → IsLawful (scripted script) (λ _. 1)
scripted-IsLawful script = (
  λ d e. let first : 0 ≡ d = cc in ap (λ n. take n script) (sym first),
  λ d d' key value e.
      let (found, next) = add_next-found (get_elem? script d) d key value e in
      rw next (take-suc script d (string_member key value) found),
  λ d d' key e.
      let (left, first) = if_empty-some (remove key (take d script)) e in rw (left, first),
  λ d. (suc d ∷ [], refl, omega arith, λ p e. (d, ap number_of (e ∙ one_byte d) ∙ back d, refl)),
)

abbrev primary : IsvKeystore
primary = record {
  isv_name = codes "vendor";
  public_key = codes "P1";
  private_key = codes "S1";
  key_guid = codes "guid";
  isv_certificate = some (codes "cert");
}

abbrev secondary : IsvKeystore
secondary = record cleared { public_key = codes "P2"; private_key = codes "S2" }

abbrev pair_only : CJson
pair_only = scripted (keystore_members primary secondary)

made : keystore_document pair_only 4096 primary secondary ≡ ok 8
unfolding keystore_document equal
made = refl

extract_pair-create_isv_keystore_example :
    (buf : Bytes) × (create_isv_keystore pair_only 4096 primary secondary (some (zeros 9)) 8
      ≡ ok buf)
    × (primary' secondary' : IsvKeystore) × (extract_pair pair_only 4096 (λ _. true) buf
        ≡ ok (primary', secondary'))
    × SameNames primary' primary
    × SameKeys primary' primary
    × SameNames secondary' cleared
    × SameKeys secondary' secondary
extract_pair-create_isv_keystore_example =
    extract_pair-create_isv_keystore pair_only (λ _. 1)
      (scripted-IsLawful (keystore_members primary secondary)) 4096 (omega arith) (λ _. true)
      primary secondary 8 9 8 (λ n. refl)
      (omega arith, omega arith, (omega arith, omega arith, omega arith))
      (omega arith, omega arith, omega arith) made (omega arith) (omega arith) (omega arith)
