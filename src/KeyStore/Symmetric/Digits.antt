-- ===== src/KeyStore/Symmetric/Digits.antt =====
-- The hexadecimal digits that ovsa_crypto_RNG of Ovsa_tool/src/lib/libovsa/symmetric.c writes.
use security_addon.Base.{
  ℕ, ◌+◌, ◌-◌, ◌*◌, ◌/◌, ◌%◌, ◌≤◌, ◌<◌, ◌≡◌, refl, ap, ◌⊎◌, ◌≢◌, inl, inr, [], ◌∷◌, ◌++◌, arith,
  ltb, if◌then◌else◌, Bytes, Bool-cases, length,
}
use security_addon.Memory.Laws.{NulFree}
use security_addon.KeyStore.Symmetric.{hex_digit, hex_text}

abbrev pub AreBytes : Bytes → Type 0
AreBytes [] = Unit
AreBytes (b ∷ bs) = (b < 256) × AreBytes bs

-- The lower-case hexadecimal digits, and the bytes that pairs of them spell.
abbrev pub IsHexDigit : ℕ → Type 0
IsHexDigit c = ((b'0' ≤ c) × (c ≤ b'9')) ⊎ ((b'a' ≤ c) × (c ≤ b'f'))

abbrev pub AllHexDigits : Bytes → Type 0
AllHexDigits [] = Unit
AllHexDigits (c ∷ cs) = IsHexDigit c × AllHexDigits cs

abbrev pub hex_value : ℕ → ℕ
hex_value c = if ltb c b'a' then c - b'0' else c - b'a' + 10

abbrev pub spelled : Bytes → Bytes
spelled [] = []
spelled (c ∷ []) = []
spelled (c ∷ d ∷ cs) = (hex_value c * 16 + hex_value d) ∷ spelled cs

hex_digit-IsHexDigit : (d : ℕ) → d < 16 → IsHexDigit (hex_digit d)
hex_digit-IsHexDigit d small = elim (Bool-cases (ltb d 10)) [
  | inl e ↦ rw e (inl ground arith)
  | inr e ↦ rw e (inr ground arith)
]

hex_value-hex_digit : (d : ℕ) → d < 16 → hex_value (hex_digit d) ≡ d
hex_value-hex_digit d small = ground arith

pub hex_text-AllHexDigits : (bytes : Bytes) → AreBytes bytes → AllHexDigits (hex_text bytes)
unfolding hex_text
hex_text-AllHexDigits [] h = tt
hex_text-AllHexDigits (b ∷ bs) h = (
  hex_digit-IsHexDigit (b / 16) (omega (arith, h.0)),
  (hex_digit-IsHexDigit (b % 16) (omega arith), hex_text-AllHexDigits bs h.1),
)

-- The digits spell the bytes that they were made of.
pub spelled-hex_text :
    (bytes more : Bytes) → AreBytes bytes → spelled (hex_text bytes ++ more) ≡ bytes ++ spelled more
unfolding hex_text
spelled-hex_text [] more h = refl
spelled-hex_text (b ∷ bs) more h =
    let whole : b / 16 * 16 + b % 16 ≡ b = omega arith in
    rw
      (
        hex_value-hex_digit (b / 16) (omega (arith, h.0)),
        hex_value-hex_digit (b % 16) (omega arith),
        whole,
      )
      (ap (◌∷◌ b) (spelled-hex_text bs more h.1))

pub length-hex_text : (bytes : Bytes) → length (hex_text bytes) ≡ 2 * length bytes
unfolding hex_text
length-hex_text [] = refl
length-hex_text (b ∷ bs) = omega (arith, length-hex_text bs)

pub AllHexDigits-append :
    (cs ds : Bytes) → AllHexDigits cs → AllHexDigits ds → AllHexDigits (cs ++ ds)
AllHexDigits-append [] ds h k = k
AllHexDigits-append (c ∷ cs) ds h k = (h.0, AllHexDigits-append cs ds h.1 k)

IsHexDigit-nonzero : (c : ℕ) → IsHexDigit c → c ≢ 0
IsHexDigit-nonzero c (inl h) e = omega (arith, h.0, e)
IsHexDigit-nonzero c (inr h) e = omega (arith, h.0, e)

pub AllHexDigits-NulFree : (cs : Bytes) → AllHexDigits cs → NulFree cs
AllHexDigits-NulFree [] h = tt
AllHexDigits-NulFree (c ∷ cs) h = (IsHexDigit-nonzero c h.0, AllHexDigits-NulFree cs h.1)
