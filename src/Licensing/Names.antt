-- ===== src/Licensing/Names.antt =====
-- The numbered names of URLs and TCBs in a license, and what is found under them.
use security_addon.Base.{
  ℕ, suc, ◌+◌, ◌/◌, ◌%◌, ◌≤◌, ◌<◌, ◌≡◌, refl, sym, ◌∙◌, ◌≢◌, inl, inr, false, some, List, [], ◌∷◌,
  ◌++◌, arith, ltb, if◌then◌else◌, Bytes, Bool-cases, length,
}
use security_addon.Base.{codes, equal, equal_iff, equal_refl, append-injective}
use security_addon.Memory.{c_string}
use security_addon.Json.{Json, object, Members, end, member, get_item, file_name}

-- The digits of a number below 100, and so its name, determine it.
abbrev number_text : ℕ → Bytes
number_text n = if ltb n 10 then (b'0' + n) ∷ [] else (b'0' + n / 10) ∷ (b'0' + n % 10) ∷ []

number_text-injective : (i k : ℕ) → i < 100 → k < 100 → number_text i ≡ number_text k → i ≡ k
number_text-injective i k hi hk e = ground arith

same_rest : (prefix xs ys : Bytes) → prefix ++ xs ≡ prefix ++ ys → xs ≡ ys
same_rest prefix xs ys e = (append-injective prefix xs prefix ys refl e).1

below-mod : (i : ℕ) → i < 100 → i % 100 ≡ i
below-mod i h = omega arith

file_name-ne :
    (prefix : Bytes) (i k : ℕ)
    → i < 100
    → k < 100
    → i ≢ k
    → equal (file_name prefix i) (file_name prefix k) ≡ false
unfolding file_name
file_name-ne prefix i k hi hk differs =
    elim (Bool-cases (equal (file_name prefix i) (file_name prefix k))) [
      | inr e ↦ e
      | inl e ↦
          let same = (equal_iff (file_name prefix i) (file_name prefix k)).0 e in
          let numbers = same_rest prefix (number_text (i % 100)) (number_text (k % 100)) same in
          absurd (
            differs (
              sym (below-mod i hi)
              ∙ number_text-injective (i % 100) (k % 100) (omega arith) (omega arith) numbers
              ∙ below-mod k hk))
    ]

-- Values under the names from a number on.
abbrev pub named : Bytes → ℕ → List Json → Members
named prefix i [] = end
named prefix i (v ∷ vs) = member (file_name prefix i) v (named prefix (suc i) vs)

-- Each of some values is found under its name.
abbrev pub Finds : Json → Bytes → ℕ → List Json → Type 0
Finds value prefix i [] = Unit
Finds value prefix i (v ∷ vs) =
    (get_item (some value) (file_name prefix i) ≡ some v) × Finds value prefix (suc i) vs

Finds-member :
    (ms : Members) (prefix : Bytes) (k i : ℕ) (v : Json) (vs : List Json)
    → k < i
    → i + length vs ≤ 100
    → Finds (object ms) prefix i vs
    → Finds (object (member (file_name prefix k) v ms)) prefix i vs
unfolding get_item
Finds-member ms prefix k i v [] below fits h = tt
Finds-member ms prefix k i v (w ∷ vs) below fits h = (
  rw (file_name-ne prefix k i (omega arith) (omega arith) (λ e. omega arith)) h.0,
  Finds-member ms prefix k (suc i) v vs (omega arith) (omega arith) h.1,
)

pub Finds-named :
    (prefix : Bytes) (i : ℕ) (vs : List Json)
    → i + length vs ≤ 100
    → Finds (object (named prefix i vs)) prefix i vs
unfolding get_item
Finds-named prefix i [] fits = tt
Finds-named prefix i (v ∷ vs) fits = (
  rw (equal_refl (file_name prefix i)),
  Finds-member (named prefix (suc i) vs) prefix i (suc i) v vs (omega arith) (omega arith)
      (Finds-named prefix (suc i) vs (omega arith)),
)

-- A name has no NUL.
pub c_string-file_name_url :
    (i : ℕ) → c_string (file_name (codes "url_") i) ≡ file_name (codes "url_") i
unfolding file_name
c_string-file_name_url i = ground arith

pub c_string-file_name_sig :
    (i : ℕ) → c_string (file_name (codes "sig_") i) ≡ file_name (codes "sig_") i
unfolding file_name
c_string-file_name_sig i = ground arith
