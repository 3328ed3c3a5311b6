-- ===== src/Decimal/Laws.antt =====
-- What `%08ld` prints, `atoi` reads back, and it is eight digits long below 10 ^ 8.
use security_addon.Base.{
  ℕ, zero, suc, ◌+◌, ◌-◌, ◌*◌, ◌/◌, ◌%◌, ◌^◌, ◌≤◌, ◌<◌, ◌≡◌, refl, ap, ◌∙◌, true, [], ◌∷◌, ◌++◌,
  arith, Bytes, length,
}
use security_addon.Base.{replicate, length-append, length-replicate}
use security_addon.Base.Int.{pos}
use native.Mathlib.Nat.{pow-suc}
use security_addon.Decimal.{digits, print_padded, is_digit, digits_value, atoi}

abbrev pub AllDigits : Bytes → Type 0
AllDigits [] = Unit
AllDigits (c ∷ cs) = (is_digit c ≡ true) × AllDigits cs

digits-AllDigits : (fuel n : ℕ) (acc : Bytes) → AllDigits acc → AllDigits (digits fuel n acc)
unfolding digits
digits-AllDigits zero n acc h = h
digits-AllDigits (suc fuel) n acc h =
    ground (arith, digits-AllDigits fuel (n / 10) ((b'0' + n % 10) ∷ acc))

digits_value-digits :
    (fuel n : ℕ) (acc : Bytes)
    → n < 10 ^ fuel
    → digits_value 0 (digits fuel n acc) ≡ digits_value n acc
unfolding digits digits_value
digits_value-digits zero n acc h = let e : n ≡ 0 = omega arith in rw e
digits_value-digits (suc fuel) n acc h =
    let h' : n < 10 ^ fuel * 10 = rw pow-suc at h in
    ground (arith, digits_value-digits fuel (n / 10) ((b'0' + n % 10) ∷ acc))

length-digits :
    (m fuel n : ℕ) (acc : Bytes) → n < 10 ^ suc m → length (digits fuel n acc) ≤ suc m + length acc
unfolding digits
length-digits m zero n acc h = omega arith
length-digits zero (suc fuel) n acc h = let small : n < 10 = h in ground arith
length-digits (suc m) (suc fuel) n acc h =
    let h' : n < 10 ^ suc m * 10 = rw pow-suc at h in
    ground (arith, length-digits m fuel (n / 10) ((b'0' + n % 10) ∷ acc))

digits_value-zeros :
    (k : ℕ) (ds : Bytes) → digits_value 0 (replicate k b'0' ++ ds) ≡ digits_value 0 ds
unfolding digits_value
digits_value-zeros zero ds = refl
digits_value-zeros (suc k) ds = digits_value-zeros k ds

AllDigits-replicate : (k : ℕ) (ds : Bytes) → AllDigits ds → AllDigits (replicate k b'0' ++ ds)
AllDigits-replicate zero ds h = h
AllDigits-replicate (suc k) ds h = (refl, AllDigits-replicate k ds h)

pub print_padded-AllDigits : (n : ℕ) → AllDigits (print_padded n)
unfolding print_padded
print_padded-AllDigits n = AllDigits-replicate _ _ (digits-AllDigits 20 n [] tt)

pub length-print_padded : (n : ℕ) → n < 10 ^ 8 → length (print_padded n) ≡ 8
unfolding print_padded
length-print_padded n h =
    let ds = digits 20 n [] in
    omega (
      arith,
      length-append (replicate (8 - length ds) b'0') ds,
      length-replicate {A = ℕ} (8 - length ds) b'0',
      length-digits 7 20 n [] h,
    )

atoi_of_digits : (ds : Bytes) → AllDigits ds → atoi ds ≡ pos (digits_value 0 ds)
unfolding atoi digits_value
atoi_of_digits [] h = refl
atoi_of_digits (c ∷ cs) h = ground arith

digits_value-print_padded : (n : ℕ) → n < 10 ^ 20 → digits_value 0 (print_padded n) ≡ n
unfolding print_padded digits_value
digits_value-print_padded n h =
    digits_value-zeros (8 - length (digits 20 n [])) (digits 20 n [])
    ∙ digits_value-digits 20 n [] h

-- Reading back a number of 20 digits at most that was printed with eight digits or more gives it.
pub atoi-print_padded : (n : ℕ) → n < 10 ^ 20 → atoi (print_padded n) ≡ pos n
atoi-print_padded n h =
    atoi_of_digits (print_padded n) (print_padded-AllDigits n)
    ∙ ap pos (digits_value-print_padded n h)
