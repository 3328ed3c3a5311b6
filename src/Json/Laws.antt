-- ===== src/Json/Laws.antt =====
-- What a caller of cJSON relies on, and the calls under it.
use security_addon.Base.{
  ℕ, ◌+◌, ◌^◌, ◌≤◌, ◌<◌, ◌≡◌, refl, sym, ap, ◌∙◌, Bool, true, Option, some, List, [], ◌∷◌, arith,
  Bytes, length,
}
use security_addon.Base.Int.{ℤ}
use security_addon.Memory.{c_string, memcpy_s, zeros}
use security_addon.Memory.Laws.{c_string-NulFree, c_string_self, length-c_string-le}
use security_addon.Status.{ok}
use security_addon.Strings.{safe_malloc}
use security_addon.Strings.Length.{get_string_length-exact}
use security_addon.KeyStore.Json.Laws.{c_string-memcpy_s, c_string-copied}
use security_addon.Json.{
  Json, text, number, array, object, Elements, nil, element, Members, end, member, JsonLibrary,
  copy_member, duplicate, add_strings, new_object, new_array, print_item,
}

-- Two rows of members, one behind the other.
abbrev pub join : Members → Members → Members
join end ns = ns
join (member k v ms) ns = member k v (join ms ns)

abbrev pub one : Bytes → Json → Members
one key value = member key value end

abbrev pub push : Elements → Json → Elements
push nil value = element value nil
push (element v vs) value = element v (push vs value)

-- cJSON as it is documented, where it finds memory: a new object is empty, an addition puts a member
-- at its end.
pub record IsLawful (j : JsonLibrary) : Type 0 where
  pub makes_object : (d : j.Item) × (j.create_object ≡ some d) × (j.view d ≡ object end)
  pub makes_string :
      (t : Bytes)
      → (d : j.Item) × (j.create_string (some t) ≡ some d) × (j.view d ≡ text (c_string t))
  pub adds_string :
      (d : j.Item) (ms : Members) (key t : Bytes)
      → j.view d ≡ object ms
      → (d' : j.Item) × (j.add_string d key (some t) ≡ some d')
        × (j.view d' ≡ object (join ms (one (c_string key) (text (c_string t)))))
  pub adds_number :
      (d : j.Item) (ms : Members) (key : Bytes) (n : ℤ)
      → j.view d ≡ object ms
      → (d' : j.Item) × (j.add_number d key n ≡ some d')
        × (j.view d' ≡ object (join ms (one (c_string key) (number n))))
  pub adds_item :
      (d e : j.Item) (ms : Members) (key : Bytes)
      → j.view d ≡ object ms
      → j.view (j.add_item d key e) ≡ object (join ms (one (c_string key) (j.view e)))
  pub makes_array : (d : j.Item) × (j.create_array ≡ some d) × (j.view d ≡ array nil)
  pub appends_item :
      (d e : j.Item) (vs : Elements)
      → j.view d ≡ array vs
      → j.view (j.append_item d e) ≡ array (push vs (j.view e))

-- An item with a value is printed in at most n bytes, and the text is parsed to the value.
abbrev pub Prints : JsonLibrary → ℕ → Json → Type 0
Prints j n value =
    (d : j.Item)
    → j.view d ≡ value
    → (printed : Bytes) × (j.print d ≡ some printed)
      × (length printed ≤ n)
      × ((p : Bytes) → c_string p ≡ c_string printed → j.parse p ≡ some value)

-- The members that a row of strings makes.
abbrev pub string_members : List (Bytes × Bytes) → Members
string_members [] = end
string_members ((key, t) ∷ rest) = member (c_string key) (text (c_string t)) (string_members rest)

abbrev pub given : List (Bytes × Bytes) → List (Bytes × Option Bytes)
given [] = []
given ((key, t) ∷ rest) = (key, some t) ∷ given rest

pub join_assoc : (ms ns os : Members) → join (join ms ns) os ≡ join ms (join ns os)
join_assoc end ns os = refl
join_assoc (member k v ms) ns os = ap (member k v) (join_assoc ms ns os)

pub join_end : (ms : Members) → join ms end ≡ ms
join_end end = refl
join_end (member k v ms) = ap (member k v) (join_end ms)

module _ (j : JsonLibrary) (lawful : IsLawful j) where
  pub new_object-view : (d : j.Item) × (new_object j ≡ ok d) × (j.view d ≡ object end)
  unfolding new_object
  new_object-view = let (d, made, e) = lawful.makes_object in (d, rw made, e)

  pub new_array-view : (d : j.Item) × (new_array j ≡ ok d) × (j.view d ≡ array nil)
  unfolding new_array
  new_array-view = let (d, made, e) = lawful.makes_array in (d, rw made, e)

  pub add_strings-view :
      (d : j.Item) (ms : Members) (rows : List (Bytes × Bytes))
      → j.view d ≡ object ms
      → (d' : j.Item) × (add_strings j d (given rows) ≡ ok d')
        × (j.view d' ≡ object (join ms (string_members rows)))
  unfolding add_strings
  add_strings-view d ms [] e = (d, refl, e ∙ ap object (sym (join_end ms)))
  add_strings-view d ms ((key, t) ∷ rows) e =
      let (d1, added, e1) = lawful.adds_string d ms key t e in
      let (d2, rest, e2) = add_strings-view d1 _ rows e1 in
      (
        d2,
        rw added rest,
        e2
            ∙ ap object
                (join_assoc ms (one (c_string key) (text (c_string t))) (string_members rows)),
      )

-- A printed item is parsed again from what has the text of a cleared buffer with room.
pub print_item-parse :
    (j : JsonLibrary) (rsize_max_str : ℕ) (d : j.Item) (value : Json) (n k output_len : ℕ)
    → Prints j n value
    → j.view d ≡ value
    → 0 < rsize_max_str
    → n ≤ output_len
    → n < 2 ^ 64
    → (buf : Bytes) × (print_item j rsize_max_str d (zeros k) output_len ≡ ok buf)
      × ((p : Bytes) → c_string p ≡ c_string buf → j.parse p ≡ some value)
unfolding print_item
print_item-parse j rsize_max_str d value n k output_len prints v r_pos fits small =
    let (printed, e, bounded, parses) = prints d v in
    let within : length (c_string printed) ≤ output_len =
      omega (arith, length-c_string-le printed) in
    let buf : Bytes = memcpy_s (zeros k) output_len printed (length (c_string printed)) in
    (
      buf,
      rw (e, (get_string_length-exact rsize_max_str r_pos printed (omega arith)).0),
      λ p same. parses p (same ∙ c_string-memcpy_s k output_len printed within),
    )

-- A text that was copied into a cleared array with room is the text.
pub copy_member-zeros :
    (k size : ℕ) (t : Bytes)
    → length (c_string t) ≤ size
    → c_string (copy_member (zeros k) size (some (c_string t))) ≡ c_string t
unfolding copy_member
copy_member-zeros k size t fits = c_string-copied k size t fits

-- A text that was copied into a block of its own is the text.
pub duplicate-some :
    (rsize_max_str : ℕ) (allocates : ℕ → Bool) (before : Option Bytes) (t : Bytes)
    → 0 < rsize_max_str
    → ((n : ℕ) → allocates n ≡ true)
    → length t < 2 ^ 64
    → (block : Bytes) × (duplicate rsize_max_str allocates before (some (c_string t))
        ≡ ok (some block))
      × (c_string block ≡ c_string t)
unfolding duplicate safe_malloc
duplicate-some rsize_max_str allocates before t r_pos room small =
    let value : Bytes = c_string t in
    let self : c_string value ≡ value = c_string_self value (c_string-NulFree t) in
    let n : ℕ = length (c_string value) in
    let measured =
      (get_string_length-exact rsize_max_str r_pos value (omega (arith, length-c_string-le t))).0 in
    (
      memcpy_s (zeros (n + 1)) n value n,
      rw (measured, room (n + 1)),
      c_string-memcpy_s (n + 1) n value (omega arith) ∙ self,
    )
