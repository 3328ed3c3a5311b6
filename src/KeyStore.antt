-- ===== src/KeyStore.antt =====
-- The key slots of the crypto library, Ovsa_tool/src/lib/libovsa: symmetric.c, asymmetric.c and
-- utils.c. The slots are state that each operation is given and gives back; a mutex is what locking
-- and unlocking it answer.
pub mod Symmetric
pub mod Compare
pub mod Asymmetric
pub mod Certificates
pub mod Json
pub mod Tests
use security_addon.Base.{
  ℕ, zero, suc, ◌+◌, ◌-◌, ◌*◌, ◌/◌, ◌%◌, ◌^◌, ◌≤◌, ◌<◌, min, ◌≡◌, refl, sym, ap, ◌∙◌, ◌≢◌, ◌⊎◌, inl,
  inr, Bool, true, false, not, ◌&&◌, ◌||◌, Option, none, some, List, [], ◌∷◌, ◌++◌, append-nil,
  append_assoc, arith, ltb, leb, ◌==◌, if◌then◌else◌, Bytes, Bool-cases, Option-cases, length, take,
  drop,
}
use security_addon.Status.{ok, crypto_generic_error, Result, err, mutex_unlock_fail}

-- MAX_KEY_SLOT
abbrev pub max_key_slot : ℕ
max_key_slot = 64

-- `pthread_mutex_lock` and `pthread_mutex_unlock`, on whether they succeed.
pub record Mutex : Type 0 where
  pub locks : Bool
  pub unlocks : Bool

-- What a function that has taken a mutex returns.
abbrev pub unlocked {ℓ} : {A : Type ℓ} → Mutex → Result A → Result A
unlocked mutex ret = if mutex.unlocks then ret else err mutex_unlock_fail

-- An index counted on by one.
abbrev pub one_more : Option ℕ → Option ℕ
one_more none = none
one_more (some index) = some (suc index)

abbrev pub found_slot : Option ℕ → Result ℕ
found_slot none = err crypto_generic_error
found_slot (some slot) = ok slot
