-- ===== src/KeyStore/Json/Laws.antt =====
-- A signature put onto a JSON text and taken off it again.
use security_addon.Base.{
  le→leb, ℕ, ◌-◌, ◌^◌, ◌≤◌, ◌<◌, ◌≡◌, ap, ◌∙◌, inl, inr, Bool, true, not, ◌&&◌, some, List, [], ◌∷◌,
  ◌++◌, arith, if◌then◌else◌, Bytes, Bool-cases, length, take,
}
use security_addon.Base.{equal, take_all}
use security_addon.Memory.{c_string, strnlen_s, memcpy_s, zeros}
use security_addon.Memory.Laws.{
  c_string-NulFree, c_string-append_zeros, c_string_self, write_at-zeros, take-c_string,
  strnlen_s-eq, length-c_string-le,
}
use security_addon.Status.{ok}
use security_addon.Strings.Length.{get_string_length-exact}
use security_addon.KeyStore.Json.{Member, CJson, get_string, print_into}

abbrev pub string_member : Bytes → Bytes → Member
string_member key value = record { key = c_string key; valuestring = some (c_string value) }

-- The members without the first that has a key.
abbrev pub remove : Bytes → List Member → List Member
remove key [] = []
remove key (m ∷ ms) = if equal m.key key then ms else m ∷ remove key ms

-- cJSON as it is documented: a new object is empty, a string is added at the end, the first member
-- with a key is detached, and a text that was printed is parsed to an object with the same members.
-- `size` bounds the printed text of members.
abbrev pub IsLawful : (j : CJson) → (List Member → ℕ) → Type 0
IsLawful j size =
    ((d : j.Doc) → j.create_object ≡ some d → j.members d ≡ [])
    × ((d d' : j.Doc) (key value : Bytes)
        → j.add_string d key value ≡ some d'
        → j.members d' ≡ j.members d ++ string_member key value ∷ [])
    × ((d d' : j.Doc) (key : Bytes)
        → j.detach_item d key ≡ some d'
        → j.members d' ≡ remove key (j.members d))
    × ((d : j.Doc)
        → (text : Bytes) × (j.print d ≡ some text)
          × (length text ≤ size (j.members d))
          × ((p : Bytes)
              → c_string p ≡ c_string text
              → (d' : j.Doc) × (j.parse p ≡ some d') × (j.members d' ≡ j.members d)))

abbrev pub lacks : List Member → Bytes → Bool
lacks [] key = true
lacks (m ∷ ms) key = not (equal m.key key) && lacks ms key

get_string-append :
    (ms : List Member) (m : Member) (key : Bytes)
    → lacks ms key ≡ true
    → equal m.key key ≡ true
    → get_string (ms ++ m ∷ []) key ≡ m.valuestring
unfolding get_string
get_string-append [] m key h e = rw e
get_string-append (n ∷ ms) m key h e = elim (Bool-cases (equal n.key key)) [
  | inl same ↦ absurd (let no = rw same at h in cc)
  | inr other ↦ rw other (get_string-append ms m key (rw other at h) e)
]

remove-append :
    (ms : List Member) (m : Member) (key : Bytes)
    → lacks ms key ≡ true
    → equal m.key key ≡ true
    → remove key (ms ++ m ∷ []) ≡ ms
remove-append [] m key h e = rw e
remove-append (n ∷ ms) m key h e = elim (Bool-cases (equal n.key key)) [
  | inl same ↦ absurd (let no = rw same at h in cc)
  | inr other ↦ rw other (ap (λ ns. n ∷ ns) (remove-append ms m key (rw other at h) e))
]

-- A text copied into cleared memory with room is the text.
pub c_string-memcpy_s :
    (k dmax : ℕ) (src : Bytes)
    → length (c_string src) ≤ dmax
    → c_string (memcpy_s (zeros k) dmax src (length (c_string src))) ≡ c_string src
unfolding memcpy_s
c_string-memcpy_s k dmax src fits =
    let n : ℕ = length (c_string src) in
    let text : take n src ≡ c_string src =
      take-c_string n src (omega arith) ∙ take_all n (c_string src) (omega arith) in
    rw (le→leb n dmax fits, text, write_at-zeros [] (c_string src) k)
      (c_string-append_zeros (c_string src) (k - n) (c_string-NulFree src))

pub c_string-copied :
    (k sig_len : ℕ) (sig : Bytes)
    → length (c_string sig) ≤ sig_len
    → c_string (memcpy_s (zeros k) sig_len (c_string sig) (strnlen_s (c_string sig) sig_len))
      ≡ c_string sig
c_string-copied k sig_len sig room =
    let self : c_string (c_string sig) ≡ c_string sig =
      c_string_self (c_string sig) (c_string-NulFree sig) in
    let counted : strnlen_s (c_string sig) sig_len ≡ length (c_string (c_string sig)) =
      rw (strnlen_s-eq (c_string sig) sig_len, self) (omega arith) in
    rw counted (c_string-memcpy_s k sig_len (c_string sig) (rw self room) ∙ self)

module _ (j : CJson) (size : List Member → ℕ) (lawful : IsLawful j size) (rsize_max_str : ℕ)
    (r_pos : 0 < rsize_max_str) where
  pub print_into-members :
      (d : j.Doc) (k out_len : ℕ)
      → size (j.members d) ≤ out_len
      → size (j.members d) < 2 ^ 64
      → (buf : Bytes) × (print_into j rsize_max_str d (zeros k) out_len ≡ ok buf)
        × (d' : j.Doc) × (j.parse buf ≡ some d')
        × (j.members d' ≡ j.members d)
  unfolding print_into
  print_into-members d k out_len fits small =
      let (text, printed, bounded, parses) = lawful.3 d in
      let within : length (c_string text) ≤ out_len = omega (arith, length-c_string-le text) in
      let buf : Bytes = memcpy_s (zeros k) out_len text (length (c_string text)) in
      let (d', parsed, same) = parses buf (c_string-memcpy_s k out_len text within) in
      (
        buf,
        rw (printed, (get_string_length-exact rsize_max_str r_pos text (omega arith)).0),
        d',
        parsed,
        same,
      )
