-- ===== src/Models/Names.antt =====
-- The names of files without their directories, and what strlastchar_s is documented to find.
use security_addon.Base.{
  ℕ, ◌+◌, ◌≤◌, ◌<◌, ◌≡◌, ◌≢◌, sym, ap, ◌∙◌, some, List, [], ◌∷◌, arith, Bytes, length, take, drop,
  take_all, get_elem?, map,
}
use security_addon.Memory.{c_string, strnlen_s}
use security_addon.Memory.Laws.{c_string-drop, strnlen_s-eq}
use security_addon.Json.{JsonLibrary}
use security_addon.Json.Laws.{IsLawful}
use security_addon.Models.{ModelFile, LastChar, last_at, not_found, violated, base_name}
use security_addon.Models.Written.{Stored, stored_content, Stores}

-- No '/' in a text.
abbrev pub NoSlash : Bytes → Type 0
NoSlash [] = Unit
NoSlash (c ∷ cs) = (c ≢ b'/') × NoSlash cs

-- The last '/' of a text: a place behind which there is none, or that there is none at all.
abbrev pub FoundLast : Bytes → LastChar → Type 0
FoundLast cs (last_at i) =
    (i < length cs) × (get_elem? cs i ≡ some b'/') × NoSlash (drop (i + 1) cs)
FoundLast cs not_found = NoSlash cs
FoundLast cs violated = Unit

-- The documented behaviour of `strlastchar_s(dest, dmax, '/')`.
abbrev pub FindsLast : (Bytes → ℕ → LastChar) → Type 0
FindsLast strlastchar_s =
    (dest : Bytes) (dmax : ℕ) → FoundLast (take dmax (c_string dest)) (strlastchar_s dest dmax)

-- Each name is without directories.
abbrev pub AreBase : List ModelFile → Type 0
AreBase [] = Unit
AreBase (f ∷ fs) = NoSlash f.model_file_name × AreBase fs

-- The names of the files that are written fit the array.
abbrev pub NamesFit : List ModelFile → Type 0
NamesFit [] = Unit
NamesFit (f ∷ fs) = (length (c_string f.model_file_name) ≤ 256) × NamesFit fs

base_name-NoSlash :
    (found : LastChar) (dest name : Bytes)
    → FoundLast (c_string dest) found
    → base_name found dest ≡ some name
    → NoSlash (c_string name)
base_name-NoSlash (last_at i) dest name (within, slash, behind) e =
    let is : drop (i + 1) dest ≡ name = cc in
    rw (sym (c_string-drop (i + 1) dest (omega (arith, within))) ∙ ap c_string is) at behind
base_name-NoSlash not_found dest name none_at_all e =
    let is : dest ≡ name = cc in rw (ap c_string is) at none_at_all
base_name-NoSlash violated dest name found e = absurd (cc)

module _ (j : JsonLibrary) (lawful : IsLawful j) (strlastchar_s : Bytes → ℕ → LastChar)
    (finds : FindsLast strlastchar_s) where
  pub Stores-AreBase :
      (files : List ModelFile) (stored : List Stored)
      → Stores j lawful strlastchar_s files stored
      → NamesFit files
      → AreBase (map stored_content stored)
  Stores-AreBase [] [] stores fit = tt
  Stores-AreBase [] (s ∷ ss) stores fit = absurd stores
  Stores-AreBase (f ∷ fs) [] stores fit = absurd stores
  Stores-AreBase (f ∷ fs) ((name, body) ∷ ss) (named, filled, rest) (fits, fit) =
      let len : ℕ = length (c_string f.model_file_name) in
      let bound : strnlen_s f.model_file_name 256 ≡ len =
        strnlen_s-eq f.model_file_name 256 ∙ omega (arith, fits) in
      (
        base_name-NoSlash (strlastchar_s f.model_file_name len) f.model_file_name name
            (rw (take_all len (c_string f.model_file_name) (omega arith)) at
              (finds f.model_file_name len))
            (rw bound at named),
        Stores-AreBase fs ss rest fit,
      )
