-- ===== src/KeyStore/Symmetric/Spec.antt =====
-- What the slots of symmetric keys promise: a map from slot numbers to keys, in which a key goes to
-- the lowest number that is free.
use security_addon.Base.{
  ℕ, zero, suc, not, ◌&&◌, Option, none, some, List, [], ◌∷◌, ltb, ◌==◌, if◌then◌else◌, Bytes,
  length, take,
}
use security_addon.Base.Int.{ℤ, pos, negsuc}
use security_addon.Memory.{c_string}
use security_addon.Status.{Result, err, invalid_parameter, crypto_generic_error, mutex_lock_fail}
use security_addon.KeyStore.{Mutex, max_key_slot, unlocked, one_more, found_slot}
use security_addon.KeyStore.Symmetric.{max_ekey_size}

abbrev pub Keys : Type 0
Keys = ℕ → Option Bytes

abbrev pub update : Keys → ℕ → Option Bytes → Keys
update keys i key j = if i == j then key else keys j

-- The lowest free number below a bound.
unfoldable pub lowest_free : ℕ → Keys → Option ℕ
lowest_free zero keys = none
lowest_free (suc n) keys = elim (keys 0) [
  | none ↦ some 0
  | some _ ↦ one_more (lowest_free n (λ i. keys (suc i)))
]

abbrev pub place : Keys → Option ℕ → Bytes → Keys
place keys none key = keys
place keys (some i) key = update keys i (some key)

-- A key is a text of at most 256 bytes.
abbrev pub text : Bytes → Bytes
text symmetric_key = take max_ekey_size (c_string symmetric_key)

pub data Op : Type 0 where
  add : Mutex → Option Bytes → Op
  clear : Mutex → ℤ → Op

-- The operations on the map. A mutex that cannot be taken leaves the map as it is.
unfoldable pub add_key : Mutex → Keys → Option Bytes → Keys × Result ℕ
add_key mutex keys none = (keys, err invalid_parameter)
add_key mutex keys (some key) =
    let slot = lowest_free max_key_slot keys in
    if not mutex.locks
    then (keys, err mutex_lock_fail)
    else if length (text key) == 0
    then (keys, unlocked mutex (err crypto_generic_error))
    else (place keys slot (text key), unlocked mutex (found_slot slot))

unfoldable pub clear_key : Mutex → Keys → ℤ → Keys
clear_key mutex keys (negsuc _) = keys
clear_key mutex keys (pos i) =
    if mutex.locks && ltb i max_key_slot then update keys i none else keys

-- A sequence of calls, with what the additions return.
unfoldable pub replay : List Op → Keys → Keys × List (Result ℕ)
unfolding add_key clear_key
replay [] keys = (keys, [])
replay (add mutex key ∷ ops) keys =
    let added = add_key mutex keys key in
    let rest = replay ops added.0 in (rest.0, added.1 ∷ rest.1)
replay (clear mutex slot ∷ ops) keys = replay ops (clear_key mutex keys slot)
