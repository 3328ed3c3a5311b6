-- ===== src/Decimal.antt =====
-- Numbers as C prints and reads them: `%08ld` of `snprintf`, and `atoi`. The length prefix of a
-- message is written by the one (License_service/src/app/utils.c,
-- `ovsa_license_service_append_payload_len_to_blob`) and read by the other
-- (license_service_server.c, `ovsa_license_service_read_payload`).
pub mod Laws
use security_addon.Base.{
  ℕ, zero, suc, ◌+◌, ◌-◌, ◌*◌, ◌/◌, ◌%◌, ◌^◌, ◌≤◌, ◌<◌, min, ◌≡◌, refl, sym, ap, ◌∙◌, ◌≢◌, ◌⊎◌, inl,
  inr, Bool, true, false, not, ◌&&◌, ◌||◌, Option, none, some, List, [], ◌∷◌, ◌++◌, append-nil,
  append_assoc, arith, ltb, leb, ◌==◌, if◌then◌else◌, Bytes, Bool-cases, Option-cases, length, take,
  drop,
}
use security_addon.Base.{replicate}
use security_addon.Base.Int.{ℤ, pos, sub_ℕ}

-- The decimal digits of a number, before the bytes `acc`; the fuel bounds their number.
unfoldable pub digits : ℕ → ℕ → Bytes → Bytes
digits zero n acc = acc
digits (suc fuel) n acc =
    let digit = b'0' + n % 10 in
    let rest = digits fuel (n / 10) (digit ∷ acc) in if ltb n 10 then digit ∷ acc else rest

-- `%08ld` of a number below 2 ^ 64, which has at most 20 digits.
unfoldable pub print_padded : ℕ → Bytes
unfolding digits
print_padded n = let ds = digits 20 n [] in replicate (8 - length ds) b'0' ++ ds

abbrev is_digit : ℕ → Bool
is_digit c = leb b'0' c && leb c b'9'

-- The number that the leading digits continue, behind the value `acc` of those before.
unfoldable pub digits_value : ℕ → Bytes → ℕ
digits_value acc [] = acc
digits_value acc (c ∷ cs) = elim (is_digit c) [
  | true ↦ digits_value (acc * 10 + (c - b'0')) cs
  | false ↦ acc
]

abbrev is_space : ℕ → Bool
is_space c = c == b' ' || (leb 9 c && leb c 13)

-- `atoi`, on a text short enough for an `int`.
unfoldable pub atoi : Bytes → ℤ
unfolding digits_value
atoi [] = pos 0
atoi (c ∷ cs) =
    let spaced = atoi cs in
    if is_space c
    then spaced
    else if c == b'-'
    then sub_ℕ 0 (digits_value 0 cs)
    else if c == b'+'
    then pos (digits_value 0 cs)
    else pos (digits_value 0 (c ∷ cs))
