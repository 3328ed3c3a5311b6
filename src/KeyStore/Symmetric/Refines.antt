-- ===== src/KeyStore/Symmetric/Refines.antt =====
-- The slots of symmetric keys against the map of keys that they promise.
use security_addon.Base.{
  take_all, ℕ, zero, suc, ◌≤◌, ◌<◌, min, ◌≡◌, refl, sym, ap, ◌∙◌, inl, inr, true, false, ◌&&◌,
  Option, none, some, List, [], ◌∷◌, arith, ltb, leb, ◌==◌, Bytes, Bool-cases, length, take,
}
use security_addon.Base.{set}
use security_addon.Base.Int.{ℤ, pos, negsuc}
use security_addon.Memory.{c_string, strnlen_s, zeros}
use security_addon.Memory.Laws.{NulFree, strnlen_s-eq, take-c_string}
use security_addon.Status.{Result}
use security_addon.KeyStore.{one_more, Mutex, max_key_slot}
use security_addon.KeyStore.Symmetric.{
  max_ekey_size, put_key, add_symmetric_key, clear_symmetric_key_slot,
}
use security_addon.KeyStore.Symmetric.Spec.{
  Keys, update, lowest_free, place, text, Op, add, clear, add_key, clear_key, replay,
}
use security_addon.KeyStore.Symmetric.Slots.{
  AreSlots, IsKeyTable, key_of, copied, copied-NulFree, length-copied, key_of-slot, write_at-slot,
  add_symmetric_key-IsKeyTable, clear_symmetric_key_slot-IsKeyTable,
}

-- A sequence of calls on the slots, with what the additions return.
unfoldable pub run : List Op → List Bytes → List Bytes × List (Result ℕ)
run [] g_sym_key = (g_sym_key, [])
run (add mutex key ∷ ops) g_sym_key =
    let added = add_symmetric_key mutex g_sym_key key in
    let rest = run ops added.0 in (rest.0, added.1 ∷ rest.1)
run (clear mutex slot ∷ ops) g_sym_key = run ops (clear_symmetric_key_slot mutex g_sym_key slot)

-- The map that an array of slots stands for.
abbrev pub view : List Bytes → Keys
view [] i = none
view (slot ∷ slots) zero = key_of slot
view (slot ∷ slots) (suc i) = view slots i

update-suc :
    (keys : Keys) (i j : ℕ) (key : Option Bytes)
    → update keys (suc i) key (suc j) ≡ update (λ k. keys (suc k)) i key j
update-suc keys i j key = ground arith

update-zero : (keys : Keys) (j : ℕ) (key : Option Bytes) → update keys 0 key (suc j) ≡ keys (suc j)
update-zero keys j key = ground arith

place-zero :
    (keys : Keys) (slot : Option ℕ) (key : Bytes) → place keys (one_more slot) key 0 ≡ keys 0
place-zero keys none key = refl
place-zero keys (some i) key = ground arith

place-suc :
    (keys : Keys) (slot : Option ℕ) (j : ℕ) (key : Bytes)
    → place keys (one_more slot) key (suc j) ≡ place (λ k. keys (suc k)) slot key j
place-suc keys none j key = refl
place-suc keys (some i) j key = update-suc keys i j (some key)

take-min : (n : ℕ) (s : Bytes) → take (min n (length s)) s ≡ take n s
take-min n s = elim (Bool-cases (leb n (length s))) [
  | inl e ↦ let m : min n (length s) ≡ n = ground arith in rw m
  | inr e ↦
      let m : min n (length s) ≡ length s = ground arith in
      rw m (take_all (length s) s (omega arith) ∙ sym (take_all n s (ground arith)))
]

copied-text : (key : Bytes) → copied key ≡ text key
copied-text key =
    let n : ℕ = strnlen_s key max_ekey_size in
    let counted : n ≡ min max_ekey_size (length (c_string key)) = strnlen_s-eq key max_ekey_size in
    take-c_string n key (omega arith) ∙ rw counted (take-min max_ekey_size (c_string key))

lowest_free_here : (n : ℕ) (keys : Keys) → keys 0 ≡ none → lowest_free (suc n) keys ≡ some 0
unfolding lowest_free
lowest_free_here n keys e = rw (e, lowest_free)

lowest_free_later :
    (n : ℕ) (keys : Keys) {key : Bytes}
    → keys 0 ≡ some key
    → lowest_free (suc n) keys ≡ one_more (lowest_free n (λ i. keys (suc i)))
unfolding lowest_free
lowest_free_later n keys e = rw (e, lowest_free)

put_key-slot :
    (slots : List Bytes) (key : Bytes)
    → (put_key slots key).1 ≡ lowest_free (length slots) (view slots)
unfolding put_key lowest_free
put_key-slot [] key = refl
put_key-slot (slot ∷ slots) key = elim (Bool-cases (strnlen_s slot max_ekey_size == 0)) [
  | inl e ↦ rw e (sym (lowest_free_here (length slots) (view (slot ∷ slots)) (rw e)))
  | inr e ↦ rw e (
      ap one_more (put_key-slot slots key)
      ∙ sym (lowest_free_later (length slots) (view (slot ∷ slots)) {key = c_string slot} (rw e)))
]

view-put_key :
    (slots : List Bytes) (key : Bytes) (j : ℕ)
    → AreSlots slots
    → NulFree key
    → length key ≤ max_ekey_size
    → (length key == 0) ≡ false
    → view (put_key slots key).0 j ≡ place (view slots) (put_key slots key).1 key j
unfolding put_key
view-put_key [] key j h nul_free fits full = refl
view-put_key (slot ∷ slots) key zero h nul_free fits full =
    elim (Bool-cases (strnlen_s slot max_ekey_size == 0)) [
      | inl e ↦ rw (e, write_at-slot slot key h.0 e, key_of-slot key nul_free fits, full)
      | inr e ↦ rw e (sym (place-zero (view (slot ∷ slots)) (put_key slots key).1 key))
    ]
view-put_key (slot ∷ slots) key (suc j) h nul_free fits full =
    elim (Bool-cases (strnlen_s slot max_ekey_size == 0)) [
      | inl e ↦ rw e (sym (update-zero (view (slot ∷ slots)) j (some key)))
      | inr e ↦ rw e (
          view-put_key slots key j h.1 nul_free fits full
          ∙ sym (place-suc _ (put_key slots key).1 j key))
    ]

view-set :
    (slots : List Bytes) (i j : ℕ)
    → i < length slots
    → view (set slots i (zeros max_ekey_size)) j ≡ update (view slots) i none j
view-set [] i j h = elim h [ ]
view-set (slot ∷ slots) zero zero h = key_of-slot [] tt (omega arith)
view-set (slot ∷ slots) zero (suc j) h = sym (update-zero (view (slot ∷ slots)) j none)
view-set (slot ∷ slots) (suc i) zero h = ground arith
view-set (slot ∷ slots) (suc i) (suc j) h =
    view-set slots i j (omega arith) ∙ sym (update-suc (view (slot ∷ slots)) i j none)

module _ (mutex : Mutex) (g_sym_key : List Bytes) (h : IsKeyTable g_sym_key) where
  pub add-view :
      (key : Option Bytes)
      → (view (add_symmetric_key mutex g_sym_key key).0 ≡ (add_key mutex (view g_sym_key) key).0)
        × ((add_symmetric_key mutex g_sym_key key).1 ≡ (add_key mutex (view g_sym_key) key).1)
  unfolding add_symmetric_key add_key
  add-view none = (refl, refl)
  add-view (some key) =
      let n : ℕ = strnlen_s key max_ekey_size in
      let counted : length (text key) ≡ n = rw (sym (copied-text key)) (length-copied key) in
      elim (Bool-cases mutex.locks) [
        | inr e ↦ rw e (refl, refl)
        | inl e ↦ elim (Bool-cases (n == 0)) [
          | inl empty ↦ rw (e, counted, empty) (refl, refl)
          | inr full ↦
              let nul_free = rw (copied-text key) at (copied-NulFree key) in
              let placed : (found : Option ℕ)
                  → (put_key g_sym_key (text key)).1 ≡ found
                  → (j : ℕ)
                  → view (put_key g_sym_key (text key)).0 j
                    ≡ place (view g_sym_key) found (text key) j =
                λ found e j. rw (sym e) (
                  view-put_key g_sym_key (text key) j h.1 nul_free
                    (omega (arith, counted, strnlen_s-eq key max_ekey_size)) (rw counted full)) in
              let slot = rw h.0 at (put_key-slot g_sym_key (text key)) in
              rw (e, counted, full, copied-text key) ((λ i j. placed _ slot j i), rw slot)
        ]
      ]

  in_range : (n : ℕ) → mutex.locks && ltb n max_key_slot ≡ true → n < length g_sym_key
  in_range n e = ground (arith, h.0)

  clear-view :
      (slot : ℤ)
      → view (clear_symmetric_key_slot mutex g_sym_key slot) ≡ clear_key mutex (view g_sym_key) slot
  unfolding clear_symmetric_key_slot clear_key
  clear-view (negsuc n) = refl
  clear-view (pos n) = elim (Bool-cases (mutex.locks && ltb n max_key_slot)) [
    | inl e ↦ rw e (λ i j. view-set g_sym_key n j (in_range n e) i)
    | inr e ↦ rw e
  ]

-- From a table of slots, any sequence of calls leaves a table of slots, and both what it holds and
-- what the calls return are as on the map: a key goes to the lowest free number, no other key
-- changes, and a cleared slot is free again.
pub run-replay :
    (ops : List Op) (g_sym_key : List Bytes)
    → IsKeyTable g_sym_key
    → IsKeyTable (run ops g_sym_key).0
      × (view (run ops g_sym_key).0 ≡ (replay ops (view g_sym_key)).0)
      × ((run ops g_sym_key).1 ≡ (replay ops (view g_sym_key)).1)
unfolding run replay
run-replay [] g_sym_key h = (h, refl, refl)
run-replay (add mutex key ∷ ops) g_sym_key h =
    let (seen, returned) = add-view mutex g_sym_key h key in
    let (table, holds, results) =
      run-replay ops (add_symmetric_key mutex g_sym_key key).0
        (add_symmetric_key-IsKeyTable mutex g_sym_key key h) in
    rw (sym seen, sym returned)
      (table, holds, ap (λ rs. (add_symmetric_key mutex g_sym_key key).1 ∷ rs) results)
run-replay (clear mutex slot ∷ ops) g_sym_key h = rw (clear-view mutex g_sym_key h slot) at (
    run-replay ops (clear_symmetric_key_slot mutex g_sym_key slot)
      (clear_symmetric_key_slot-IsKeyTable mutex g_sym_key slot h))
