-- ===== src/KeyStore/Asymmetric/Tests.antt =====
-- Small tables of key pairs, and the theorems on pairs, certificates and their comparison at them.
use security_addon.KeyStore.Asymmetric.Found.{get_asymmetric_key_slot-IsMatch, IsMatch}
use security_addon.Base.{
  ℕ, ◌+◌, ◌≡◌, refl, Bool, true, false, ◌&&◌, ◌||◌, none, some, List, [], ◌∷◌, ◌++◌, arith, ltb,
  ◌==◌, if◌then◌else◌, Bytes, length, drop,
}
use security_addon.Base.{codes, equal, replicate, set, get_elem?}
use security_addon.Base.Int.{pos, negsuc}
use security_addon.Memory.{c_string}
use security_addon.Status.{Result, ok, err, crypto_generic_error, invalid_file_path}
use security_addon.KeyStore.{Result, Mutex, max_key_slot}
use security_addon.KeyStore.Compare.{
  Compares, compare_strings, compare_strings-exact, compare_strings-tail,
}
use security_addon.KeyStore.Asymmetric.{
  get_asymmetric_key_slot, cert_length, IsvKeystore, cleared, add_asymmetric_keystore_array,
  load_asymmetric_key,
}
use security_addon.KeyStore.Asymmetric.Lowest.{
  is_blank, IsKept, AreKept, first_blank, after, add_asymmetric_keystore_array-first,
  load_asymmetric_key-pair,
}
use security_addon.KeyStore.Certificates.{
  Checks, add_cert_keystore_array, get_certificate, clear_asymmetric_key_slot,
}
use security_addon.KeyStore.Certificates.Laws.{
  get_certificate-add_cert_keystore_array, clear_asymmetric_key_slot-exact,
}

abbrev compare_texts : Bytes → ℕ → Bytes → Bool
compare_texts dest dmax src = equal (c_string dest) (c_string src)

compare_texts-Compares : Compares compare_texts
compare_texts-Compares dest dmax src some_room dest_fits src_fits = refl

compare_strings-exact_example : compare_strings 4 compare_texts (codes "abc") (codes "abd") ≡ (
    if length (c_string (codes "abc")) == 0 || length (c_string (codes "abd")) == 0
    then err invalid_file_path
    else ok (equal (c_string (codes "abc")) (c_string (codes "abd"))))
compare_strings-exact_example =
    compare_strings-exact 4 compare_texts compare_texts-Compares (omega arith) (codes "abc")
      (codes "abd") (omega arith) (omega arith) (omega arith)

-- The texts differ in their first byte.
compare_strings-tail_example :
    compare_strings 4 compare_texts (codes "aaaaxy") (codes "baaaxy")
    ≡ ok (equal (drop 4 (c_string (codes "aaaaxy"))) (drop 4 (c_string (codes "baaaxy"))))
compare_strings-tail_example =
    compare_strings-tail 4 compare_texts compare_texts-Compares (omega arith) (codes "aaaaxy")
      (codes "baaaxy") (omega arith) (omega arith) refl (omega arith) (omega arith)

abbrev working : Mutex
working = record { locks = true; unlocks = true }

abbrev named : Bytes → IsvKeystore
named name = record cleared { isv_name = name }

bare-IsKept : (k : IsvKeystore) → k.isv_certificate ≡ none → IsKept 4 (omega arith) compare_texts k
bare-IsKept k bare cert e = absurd (cc)

-- Two keystores with a free slot behind each.
abbrev table : List IsvKeystore
table = named (codes "a") ∷ cleared ∷ named (codes "b") ∷ cleared ∷ []

table-AreKept : AreKept 4 (omega arith) compare_texts table
table-AreKept = (
  bare-IsKept (named (codes "a")) refl,
  (
    bare-IsKept cleared refl,
    (bare-IsKept (named (codes "b")) refl, (bare-IsKept cleared refl, tt)),
  ),
)

add_asymmetric_keystore_array-first_example :
    add_asymmetric_keystore_array 4 compare_texts table (named (codes "c"))
    ≡ after 4
        (omega arith)
        compare_texts
        table
        (named (codes "c"))
        (first_blank 4 (omega arith) compare_texts table)
add_asymmetric_keystore_array-first_example =
    add_asymmetric_keystore_array-first 4 (omega arith) compare_texts table (named (codes "c"))
      table-AreKept

first : first_blank 4 (omega arith) compare_texts table ≡ some 1
unfolding equal
first = refl

second : first_blank 4 (omega arith) compare_texts (set table 1 (named (codes "c"))) ≡ some 3
unfolding equal
second = refl

-- The primary key is in slot 1; the slot returned, 2, holds another keystore.
load_asymmetric_key-pair_example :
    load_asymmetric_key 4 compare_texts working table (ok (named (codes "c"), named (codes "d")))
    ≡ (set (set table 1 (named (codes "c"))) 3 (named (codes "d")), ok (pos 2))
load_asymmetric_key-pair_example =
    load_asymmetric_key-pair 4 (omega arith) compare_texts working table (named (codes "c"))
      (named (codes "d")) 1 3 refl refl table-AreKept (bare-IsKept (named (codes "c")) refl) first
      second

abbrev certified : IsvKeystore
certified = record cleared { isv_certificate = some (codes "cert") }

used : is_blank 4 (omega arith) compare_texts (named (codes "a")) ≡ false
unfolding equal
used = refl

blank : is_blank 4 (omega arith) compare_texts certified ≡ true
unfolding equal
blank = refl

abbrev slots : List IsvKeystore
slots = replicate max_key_slot cleared

get_certificate-add_cert_keystore_array_example :
    ((add_cert_keystore_array 4 (λ _. true) slots (pos 7) (some (codes "cert"))).1 ≡ ok tt)
    × (get_certificate 4
          (λ _. true)
          (add_cert_keystore_array 4 (λ _. true) slots (pos 7) (some (codes "cert"))).0
          (pos 7)
        ≡ (if length (c_string (codes "cert")) == 0
            then get_certificate 4 (λ _. true) slots (pos 7)
            else ok (c_string (codes "cert") ++ 0 ∷ [])))
get_certificate-add_cert_keystore_array_example =
    get_certificate-add_cert_keystore_array 4 (omega arith) (λ _. true) slots 7 (codes "cert") refl
      (omega arith) (omega arith) refl

abbrev neither : Checks
neither = record {
  verify_certificate = λ slot cert. ok tt;
  compare_certkey = λ g_key_store slot cert. err crypto_generic_error;
  write_keystore = λ g_key_store slot. ok tt;
}

clear_asymmetric_key_slot-exact_example :
    (get_elem? (clear_asymmetric_key_slot working slots (pos 7)) 8
      ≡ (if ltb 7 63 && (8 == 7 || 8 == 7 + 1) then some cleared else get_elem? slots 8))
    × (clear_asymmetric_key_slot working slots (negsuc 7) ≡ slots)
clear_asymmetric_key_slot-exact_example =
    clear_asymmetric_key_slot-exact working slots 7 8 refl refl (omega arith)

abbrev searched : Result (IsvKeystore × IsvKeystore)
searched = ok (named (codes "b"), cleared)

here : get_asymmetric_key_slot 4 compare_texts table searched ≡ ok 2
unfolding get_asymmetric_key_slot equal
here = refl

get_asymmetric_key_slot-IsMatch_example :
    (primary secondary : IsvKeystore) × (searched ≡ ok (primary, secondary))
    × (cert_len : ℕ) × (cert_length 4 compare_texts primary.isv_certificate 0 ≡ ok cert_len)
    × IsMatch 4 compare_texts 0 table 2 primary cert_len
get_asymmetric_key_slot-IsMatch_example =
    get_asymmetric_key_slot-IsMatch 4 compare_texts table searched 2 here
