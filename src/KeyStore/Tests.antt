-- ===== src/KeyStore/Tests.antt =====
-- A table with two keys, and the theorems on the key slots at it.
use security_addon.Base.{
  length-replicate, ℕ, zero, suc, ◌≤◌, ◌<◌, ◌≡◌, refl, true, none, some, List, [], ◌∷◌, arith,
  Bytes,
}
use security_addon.Base.{codes, replicate}
use security_addon.Base.Int.{pos, negsuc}
use security_addon.Memory.{zeros}
use security_addon.Status.{ok, err, memio_error, crypto_generic_error}
use security_addon.KeyStore.{Mutex, max_key_slot}
use security_addon.KeyStore.Symmetric.{OpenSsl, max_ekey_size, generate_symmetric_key}
use security_addon.KeyStore.Symmetric.Slots.{AreSlots, IsKeyTable, zeros-IsSlot}
use security_addon.KeyStore.Symmetric.Refines.{run, view, run-replay}
use security_addon.KeyStore.Symmetric.Spec.{lowest_free, Op, add, clear, replay, add_key}
use security_addon.Base.{ℕ, zero, suc}
use security_addon.KeyStore.Symmetric.Digits.{AreBytes}
use security_addon.KeyStore.Symmetric.Generate.{Works, IsKeyText, generate_symmetric_key-exact}

abbrev working : Mutex
working = record { locks = true; unlocks = true }

abbrev empty_table : ℕ → List Bytes
empty_table n = replicate n (zeros max_ekey_size)

empty_table-AreSlots : (n : ℕ) → AreSlots (empty_table n)
empty_table-AreSlots zero = tt
empty_table-AreSlots (suc n) = (zeros-IsSlot, empty_table-AreSlots n)

empty_table-IsKeyTable : IsKeyTable (empty_table max_key_slot)
empty_table-IsKeyTable = (refl, empty_table-AreSlots max_key_slot)

-- Two keys, the first of them cleared, and a third in its place.
abbrev calls : List Op
calls =
    add working (some (codes "first"))
    ∷ add working (some (codes "second"))
    ∷ clear working (pos 0)
    ∷ clear working (negsuc 0)
    ∷ add working (some (codes "third"))
    ∷ add working (some [])
    ∷ []

returns : (replay calls (λ i. none)).1 ≡ ok 0 ∷ ok 1 ∷ ok 0 ∷ err crypto_generic_error ∷ []
unfolding replay lowest_free
returns = refl

run-replay_example :
    IsKeyTable (run calls (empty_table max_key_slot)).0
    × (view (run calls (empty_table max_key_slot)).0
        ≡ (replay calls (view (empty_table max_key_slot))).0)
    × ((run calls (empty_table max_key_slot)).1
        ≡ (replay calls (view (empty_table max_key_slot))).1)
run-replay_example = run-replay calls (empty_table max_key_slot) empty_table-IsKeyTable

abbrev open_ssl : OpenSsl
open_ssl = record {
  bio_new = true;
  rand_bytes = λ call chunk. some (replicate chunk 171);
  bio_printf = λ call. true;
  bio_flush = true;
  bio_get_mem_ptr = true;
}

replicate-AreBytes : (n : ℕ) → AreBytes (replicate n 171)
replicate-AreBytes zero = tt
replicate-AreBytes (suc n) = (omega arith, replicate-AreBytes n)

open_ssl-Works : Works open_ssl
open_ssl-Works = (
  refl,
  refl,
  refl,
  λ call. refl,
  λ call chunk. (replicate chunk 171, refl, length-replicate chunk 171, replicate-AreBytes chunk),
)

generate_symmetric_key-exact_example :
    (line : Bytes) × IsKeyText open_ssl 32 line
    × (32 ≤ 127
        → (view (generate_symmetric_key open_ssl working (empty_table max_key_slot) (pos 32)).0
            ≡ (add_key working (view (empty_table max_key_slot)) (some line)).0)
          × ((generate_symmetric_key open_ssl working (empty_table max_key_slot) (pos 32)).1
              ≡ (add_key working (view (empty_table max_key_slot)) (some line)).1))
    × (127 < 32
        → generate_symmetric_key open_ssl working (empty_table max_key_slot) (pos 32)
          ≡ (empty_table max_key_slot, err memio_error))
generate_symmetric_key-exact_example =
    generate_symmetric_key-exact open_ssl working (empty_table max_key_slot) 32 open_ssl-Works
      empty_table-IsKeyTable (omega arith)
