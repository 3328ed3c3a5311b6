-- ===== src/KeyStore/Symmetric/Slots.antt =====
-- What the slots of symmetric keys hold, under every operation.
use security_addon.Base.Int.{pos, negsuc, ℤ}
use security_addon.Base.{
  length-set, length-take, ℕ, zero, suc, ◌-◌, ◌≤◌, ◌≡◌, refl, ap, ◌∙◌, inl, inr, true, not, ◌&&◌,
  Option, none, some, List, [], ◌∷◌, ◌++◌, arith, ltb, ◌==◌, if◌then◌else◌, Bytes, Bool-cases,
  length, take,
}
use security_addon.Base.{set}
use security_addon.Memory.{c_string, strnlen_s, write_at, zeros}
use security_addon.Memory.Laws.{
  NulFree-take, take-c_string, write_at-zeros, length-c_string-le, NulFree, c_string-NulFree,
  c_string-append_zeros, strnlen_s-eq,
}
use security_addon.KeyStore.{Mutex, max_key_slot}
use security_addon.KeyStore.Symmetric.{
  ℤ, max_ekey_size, put_key, add_symmetric_key, clear_symmetric_key_slot,
}

-- A slot of 256 bytes is a key, and nothing behind it but zeros.
abbrev pub IsSlot : Bytes → Type 0
IsSlot slot =
    (key : Bytes) × NulFree key
    × (length key ≤ max_ekey_size)
    × (slot ≡ key ++ zeros (max_ekey_size - length key))

abbrev pub AreSlots : List Bytes → Type 0
AreSlots [] = Unit
AreSlots (slot ∷ slots) = IsSlot slot × AreSlots slots

-- The array of 64 such slots.
abbrev pub IsKeyTable : List Bytes → Type 0
IsKeyTable g_sym_key = (length g_sym_key ≡ max_key_slot) × AreSlots g_sym_key

-- The key that a slot holds, where it is not free.
abbrev pub key_of : Bytes → Option Bytes
key_of slot = if strnlen_s slot max_ekey_size == 0 then none else some (c_string slot)

pub zeros-IsSlot : IsSlot (zeros max_ekey_size)
zeros-IsSlot = ([], tt, omega arith, refl)

-- The bytes of a key that an operation copies.
abbrev pub copied : Bytes → Bytes
copied symmetric_key = take (strnlen_s symmetric_key max_ekey_size) symmetric_key

pub copied-NulFree : (key : Bytes) → NulFree (copied key)
copied-NulFree key =
    let n : ℕ = strnlen_s key max_ekey_size in
    let within : n ≤ length (c_string key) = omega (arith, strnlen_s-eq key max_ekey_size) in
    rw (take-c_string n key within) (NulFree-take n (c_string key) (c_string-NulFree key))

pub length-copied : (key : Bytes) → length (copied key) ≡ strnlen_s key max_ekey_size
length-copied key =
    let short : strnlen_s key max_ekey_size ≤ length key =
      omega (arith, strnlen_s-eq key max_ekey_size, length-c_string-le key) in
    omega (arith, short, length-take (strnlen_s key max_ekey_size) key)

strnlen_s-slot :
    (key : Bytes)
    → NulFree key
    → length key ≤ max_ekey_size
    → strnlen_s (key ++ zeros (max_ekey_size - length key)) max_ekey_size ≡ length key
strnlen_s-slot key nul_free fits =
    rw
      (
        strnlen_s-eq (key ++ zeros (max_ekey_size - length key)) max_ekey_size,
        c_string-append_zeros key (max_ekey_size - length key) nul_free,
      )
      (omega arith)

pub key_of-slot :
    (key : Bytes)
    → NulFree key
    → length key ≤ max_ekey_size
    → key_of (key ++ zeros (max_ekey_size - length key))
      ≡ (if length key == 0 then none else some key)
key_of-slot key nul_free fits = rw (
  strnlen_s-slot key nul_free fits,
  c_string-append_zeros key (max_ekey_size - length key) nul_free,
)

-- A key written into a free slot is what the slot then holds.
pub write_at-slot :
    (slot key : Bytes)
    → IsSlot slot
    → (strnlen_s slot max_ekey_size == 0) ≡ true
    → write_at slot 0 key ≡ key ++ zeros (max_ekey_size - length key)
write_at-slot slot key ([], nul_free, fits, e) free = rw e (write_at-zeros [] key max_ekey_size)
write_at-slot slot key (b ∷ k, nul_free, fits, e) free =
    absurd (ground (arith, strnlen_s-slot (b ∷ k) nul_free fits, rw e at free))

put_key-AreSlots :
    (slots : List Bytes) (key : Bytes)
    → AreSlots slots
    → NulFree key
    → length key ≤ max_ekey_size
    → AreSlots (put_key slots key).0
unfolding put_key
put_key-AreSlots [] key h nul_free fits = tt
put_key-AreSlots (slot ∷ slots) key (is_slot, are_slots) nul_free fits =
    elim (Bool-cases (strnlen_s slot max_ekey_size == 0)) [
      | inl e ↦ rw e ((key, nul_free, fits, write_at-slot slot key is_slot e), are_slots)
      | inr e ↦ rw e (is_slot, put_key-AreSlots slots key are_slots nul_free fits)
    ]

length-put_key : (slots : List Bytes) (key : Bytes) → length (put_key slots key).0 ≡ length slots
unfolding put_key
length-put_key [] key = refl
length-put_key (slot ∷ slots) key = elim (Bool-cases (strnlen_s slot max_ekey_size == 0)) [
  | inl e ↦ rw e
  | inr e ↦ rw e (ap suc (length-put_key slots key))
]

set-AreSlots :
    (slots : List Bytes) (i : ℕ) → AreSlots slots → AreSlots (set slots i (zeros max_ekey_size))
set-AreSlots [] i h = tt
set-AreSlots (slot ∷ slots) zero h = (zeros-IsSlot, h.1)
set-AreSlots (slot ∷ slots) (suc i) h = (h.0, set-AreSlots slots i h.1)

-- The table stays one under an addition, whether it succeeds or not.
pub add_symmetric_key-IsKeyTable :
    (mutex : Mutex) (g_sym_key : List Bytes) (key : Option Bytes)
    → IsKeyTable g_sym_key
    → IsKeyTable (add_symmetric_key mutex g_sym_key key).0
unfolding add_symmetric_key
add_symmetric_key-IsKeyTable mutex g_sym_key none h = h
add_symmetric_key-IsKeyTable mutex g_sym_key (some key) h =
    let put : IsKeyTable (put_key g_sym_key (copied key)).0 = (
      length-put_key g_sym_key (copied key) ∙ h.0,
      put_key-AreSlots g_sym_key (copied key) h.1 (copied-NulFree key)
          (omega (arith, length-copied key, strnlen_s-eq key max_ekey_size)),
    ) in
    elim (Bool-cases (not mutex.locks)) [
      | inl e ↦ rw e h
      | inr e ↦ elim (Bool-cases (strnlen_s key max_ekey_size == 0)) [
        | inl empty ↦ rw (e, empty) h
        | inr full ↦ rw (e, full) put
      ]
    ]

-- It stays one when a slot is cleared, in range or not.
pub clear_symmetric_key_slot-IsKeyTable :
    (mutex : Mutex) (g_sym_key : List Bytes) (slot : ℤ)
    → IsKeyTable g_sym_key
    → IsKeyTable (clear_symmetric_key_slot mutex g_sym_key slot)
unfolding clear_symmetric_key_slot
clear_symmetric_key_slot-IsKeyTable mutex g_sym_key (negsuc n) h = h
clear_symmetric_key_slot-IsKeyTable mutex g_sym_key (pos n) h =
    elim (Bool-cases (mutex.locks && ltb n max_key_slot)) [
      | inl e ↦
          rw e (length-set g_sym_key n (zeros max_ekey_size) ∙ h.0, set-AreSlots g_sym_key n h.1)
      | inr e ↦ rw e h
    ]
