-- ===== src/KeyStore/Symmetric/Generate.antt =====
-- What `ovsa_crypto_generate_symmetric_key` stores, for each size of a key.
use security_addon.Base.{
  ℕ, zero, suc, ◌+◌, ◌-◌, ◌*◌, ◌≤◌, ◌<◌, min, ◌≡◌, refl, inl, inr, true, false, some, List, [], ◌∷◌,
  ◌++◌, append-nil, append_assoc, arith, ltb, leb, ◌==◌, if◌then◌else◌, Bytes, Bool-cases, length,
}
use security_addon.Base.{length-append, append_assoc}
use security_addon.Base.Int.{pos}
use security_addon.Memory.{zeros}
use security_addon.Memory.Laws.{
  NulFree, NulFree-append, c_string_self, c_string-append_zeros, write_at-zeros,
}
use security_addon.Status.{err, ok, memio_error}
use security_addon.KeyStore.{Mutex}
use security_addon.KeyStore.Symmetric.{
  OpenSsl, max_ekey_size, max_sym_key_size, hex_text, rng_loop, crypto_rng, generate_symmetric_key,
}
use security_addon.KeyStore.Symmetric.Slots.{IsKeyTable}
use security_addon.KeyStore.Symmetric.Refines.{view, add-view}
use security_addon.KeyStore.Symmetric.Spec.{add_key, text}
use security_addon.KeyStore.Symmetric.Digits.{
  AreBytes, AllHexDigits, spelled, hex_text-AllHexDigits, spelled-hex_text, length-hex_text,
  AllHexDigits-append, AllHexDigits-NulFree,
}

-- OpenSSL does not fail: every call for random bytes gets as many as it asks for.
abbrev pub Works : OpenSsl → Type 0
Works o =
    (o.bio_new ≡ true)
    × (o.bio_flush ≡ true)
    × (o.bio_get_mem_ptr ≡ true)
    × ((call : ℕ) → o.bio_printf call ≡ true)
    × ((call chunk : ℕ)
        → (buff : Bytes) × (o.rand_bytes call chunk ≡ some buff)
          × (length buff ≡ chunk)
          × AreBytes buff)

-- The random bytes of a size that OpenSSL gives from a call on, in pieces of the size of a buffer.
pub data Drawn (o : OpenSsl) : ℕ → ℕ → Bytes → Type 0 where
  none_left : (call : ℕ) → Drawn o call 0 []
  piece :
      (call key_size : ℕ) (buff rest : Bytes)
      → 0 < key_size
      → o.rand_bytes call (min key_size max_sym_key_size) ≡ some buff
      → Drawn o (suc call) (key_size - min key_size max_sym_key_size) rest
      → Drawn o call key_size (buff ++ rest)

-- Digits that spell the bytes that OpenSSL gives for a size.
abbrev pub SpellDrawn : OpenSsl → ℕ → ℕ → Bytes → Type 0
SpellDrawn o call key_size digits =
    AllHexDigits digits × (length digits ≡ 2 * key_size) × Drawn o call key_size (spelled digits)

Drawn-zero : (o : OpenSsl) (call key_size : ℕ) → ltb 0 key_size ≡ false → Drawn o call key_size []
Drawn-zero o call zero e = none_left call
Drawn-zero o call (suc n) e = absurd (let positive : ltb 0 (suc n) ≡ true = ground arith in cc)

-- The digits that a loop with fuel enough adds.
Digits : OpenSsl → ℕ → ℕ → ℕ → Bytes → Type 0
Digits o fuel key_size call mem =
    (digits : Bytes) × (rng_loop o fuel key_size call mem ≡ ok (mem ++ digits))
    × SpellDrawn o call key_size digits

rng_loop-Digits :
    (o : OpenSsl) (fuel key_size call : ℕ) (mem : Bytes)
    → Works o
    → key_size ≤ fuel
    → Digits o fuel key_size call mem
unfolding rng_loop Digits
rng_loop-Digits o zero key_size call mem works enough =
    ([], rw (append-nil mem), (tt, omega arith, Drawn-zero o call key_size (ground arith)))
rng_loop-Digits o (suc fuel) key_size call mem works enough = elim (Bool-cases (ltb 0 key_size)) [
  | inr e ↦ ([], rw (e, append-nil mem), (tt, ground arith, Drawn-zero o call key_size e))
  | inl e ↦
      let chunk : ℕ = min key_size max_sym_key_size in
      let (buff, drawn, sized, are_bytes) = works.4 call chunk in
      let positive : 0 < key_size = ground arith in
      let (digits, run, (hex, counted, rest)) =
        rng_loop-Digits o fuel (key_size - chunk) (suc call) (mem ++ hex_text buff) works
          (omega arith) in
      (
        hex_text buff ++ digits,
        rw (e, drawn, works.3 call, run, append_assoc mem (hex_text buff) digits),
        (
          AllHexDigits-append (hex_text buff) digits (hex_text-AllHexDigits buff are_bytes) hex,
          omega (arith, length-append (hex_text buff) digits, length-hex_text buff),
          rw (spelled-hex_text buff digits are_bytes)
              (piece call key_size buff (spelled digits) positive drawn rest),
        ),
      )
]

-- A line of digits that spell the random bytes of a key: what a key of a size is as text.
abbrev pub IsKeyText : OpenSsl → ℕ → Bytes → Type 0
IsKeyText o key_size line =
    (digits : Bytes) × (line ≡ digits ++ b'\n' ∷ []) × SpellDrawn o 0 key_size digits

crypto_rng-exact :
    (o : OpenSsl) (key_size : ℕ)
    → Works o
    → 0 < key_size
    → (line : Bytes) × IsKeyText o key_size line
      × (crypto_rng o (pos key_size) (zeros max_ekey_size) ≡ (
          if leb (length line) max_ekey_size
          then ok (line ++ zeros (max_ekey_size - length line))
          else err memio_error))
unfolding crypto_rng Digits
crypto_rng-exact o key_size works some_size =
    let (digits, run, spelling) = rng_loop-Digits o key_size key_size 0 [] works (omega arith) in
    let nonzero : (key_size == 0) ≡ false = ground arith in
    (
      digits ++ b'\n' ∷ [],
      (digits, refl, spelling),
      rw (nonzero, works.0, run, works.1, works.2)
          (elim (Bool-cases (leb (length (digits ++ b'\n' ∷ [])) max_ekey_size)) [
            | inl e ↦ rw (e, write_at-zeros [] (digits ++ b'\n' ∷ []) max_ekey_size)
            | inr e ↦ rw e
          ]),
    )

IsKeyText-length :
    (o : OpenSsl) (key_size : ℕ) (line : Bytes)
    → IsKeyText o key_size line
    → length line ≡ 2 * key_size + 1
IsKeyText-length o key_size line (digits, e, (hex, counted, drawn)) =
    rw e (omega (arith, length-append digits (b'\n' ∷ [])))

IsKeyText-NulFree :
    (o : OpenSsl) (key_size : ℕ) (line : Bytes) → IsKeyText o key_size line → NulFree line
IsKeyText-NulFree o key_size line (digits, e, (hex, counted, drawn)) =
    rw e (
      NulFree-append digits (b'\n' ∷ []) (AllHexDigits-NulFree digits hex)
        ((λ z. ground arith), tt))

-- The text of the buffer is the line.
text-buffer :
    (line : Bytes) (k : ℕ)
    → NulFree line
    → length line ≤ max_ekey_size
    → text (line ++ zeros k) ≡ text line
text-buffer line k nul_free fits =
    rw (c_string-append_zeros line k nul_free, c_string_self line nul_free)

-- Which lines fit a slot.
within :
    (n key_size : ℕ)
    → n ≡ 2 * key_size + 1
    → (key_size ≤ 127 → leb n max_ekey_size ≡ true) × (127 < key_size → leb n max_ekey_size ≡ false)
within n key_size counted = (λ short. ground arith, λ long. ground arith)

-- With OpenSSL working and a table of slots, a key of 1 to 127 bytes is stored as the line of
-- hexadecimal digits, two for each byte, that spell the random bytes that OpenSSL has given, as adding
-- that line to the map of keys would; a longer key is refused, and the table stays as it is.
pub generate_symmetric_key-exact :
    (o : OpenSsl) (mutex : Mutex) (g_sym_key : List Bytes) (key_size : ℕ)
    → Works o
    → IsKeyTable g_sym_key
    → 0 < key_size
    → (line : Bytes) × IsKeyText o key_size line
      × (key_size ≤ 127
          → (view (generate_symmetric_key o mutex g_sym_key (pos key_size)).0
              ≡ (add_key mutex (view g_sym_key) (some line)).0)
            × ((generate_symmetric_key o mutex g_sym_key (pos key_size)).1
                ≡ (add_key mutex (view g_sym_key) (some line)).1))
      × (127 < key_size
          → generate_symmetric_key o mutex g_sym_key (pos key_size) ≡ (g_sym_key, err memio_error))
unfolding generate_symmetric_key add_key
generate_symmetric_key-exact o mutex g_sym_key key_size works h some_size =
    let (line, is_line, run) = crypto_rng-exact o key_size works some_size in
    let counted : length line ≡ 2 * key_size + 1 = IsKeyText-length o key_size line is_line in
    (
      line,
      is_line,
      λ short.
          let fits : leb (length line) max_ekey_size ≡ true =
            (within (length line) key_size counted).0 short in
          let same =
            text-buffer line (max_ekey_size - length line)
              (IsKeyText-NulFree o key_size line is_line) (omega arith) in
          rw (run, fits)
            (rw same at
              (add-view mutex g_sym_key h (some (line ++ zeros (max_ekey_size - length line))))),
      λ long. rw (run, (within (length line) key_size counted).1 long),
    )
