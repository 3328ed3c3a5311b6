-- ===== src/Json/Plain.antt =====
-- A JSON library for tests: its items are values, and an item is printed as the number of
-- its members, by which a text is parsed.
use security_addon.Base.{ℕ, suc, ◌-◌, ◌≡◌, refl, ap, ◌∙◌, Option, none, some, [], ◌∷◌, Bytes, arith}
use security_addon.Memory.{c_string}
use security_addon.Json.{
  Json, other, text, number, array, object, nil, end, members_of, count_members, JsonLibrary,
}
use security_addon.Json.Laws.{join, one, push, IsLawful, Prints}

abbrev pub extend : Json → Bytes → Json → Json
extend (object members) key value = object (join members (one (c_string key) value))
extend other key value = other
extend (text t) key value = text t
extend (number n) key value = number n
extend (array elements) key value = array elements

abbrev pub append_value : Json → Json → Json
append_value (array elements) value = array (push elements value)
append_value other value = other
append_value (text t) value = text t
append_value (number n) value = number n
append_value (object members) value = object members

abbrev pub string_item : Option Bytes → Option Json
string_item none = none
string_item (some t) = some (text (c_string t))

abbrev pub extend_string : Json → Bytes → Option Json → Option Json
extend_string item key none = none
extend_string item key (some value) = some (extend item key value)

abbrev pub parse_one : (ℕ → Json) → Bytes → Option Json
parse_one value [] = none
parse_one value (b ∷ bs) = some (value (b - 1))

abbrev pub plain : (ℕ → Json) → JsonLibrary
plain value = record {
  Item = Json;
  view = λ item. item;
  create_object = some (object end);
  create_string = string_item;
  add_string = λ item key t. extend_string item key (string_item t);
  add_number = λ item key n. some (extend item key (number n));
  add_item = λ item key added. extend item key added;
  create_array = some (array nil);
  append_item = append_value;
  print = λ item. some (suc (count_members (members_of item)) ∷ []);
  parse = λ p. parse_one value (c_string p);
}

pub plain-IsLawful : (value : ℕ → Json) → IsLawful (plain value)
plain-IsLawful value = record {
  makes_object = (object end, refl, refl);
  makes_string = λ t. (text (c_string t), refl, refl);
  adds_string = λ d ms key t e.
      (extend d key (text (c_string t)), refl, ap (λ item. extend item key (text (c_string t))) e);
  adds_number =
      λ d ms key n e. (extend d key (number n), refl, ap (λ item. extend item key (number n)) e);
  adds_item = λ d added ms key e. ap (λ item. extend item key added) e;
  makes_array = (array nil, refl, refl);
  appends_item = λ d added vs e. ap (λ item. append_value item added) e;
}

one_byte : (n : ℕ) → c_string (suc n ∷ []) ≡ suc n ∷ []
one_byte n = ground arith

pub plain-Prints :
    (value : ℕ → Json) (v : Json)
    → value (count_members (members_of v)) ≡ v
    → Prints (plain value) 1 v
plain-Prints value v e d same =
    let n : ℕ = count_members (members_of d) in
    let before : suc n - 1 ≡ n = omega arith in
    (
      suc n ∷ [],
      refl,
      omega arith,
      λ p text.
          ap (parse_one value) (text ∙ one_byte n)
          ∙ ap (λ m. some (value m)) (before ∙ ap (λ w. count_members (members_of w)) same)
          ∙ ap some e,
    )
