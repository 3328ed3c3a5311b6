-- ===== src/Pcr/Row.antt =====
-- The row of the digests that ovsa_license_service_do_verify_pcr_ids reads, and the PCRs that both sides
-- select.
use security_addon.Base.{
  ℕ, zero, suc, ◌+◌, ◌-◌, ◌*◌, min, ◌≡◌, refl, Bool, true, false, ◌&&◌, some, List, [], ◌∷◌, arith,
  if◌then◌else◌, Bytes,
}
use security_addon.Base.Int.{ℤ}
use security_addon.Pcr.{Digests, Selection, Tpm, elem_at, is_zero, is_selected}
use security_addon.Status.{ok-injective, Result, ok, err, fault}

-- The documented behaviour of `memcmp_s`: memory does not differ from itself.
abbrev pub NeverDiffers : Tpm → Type 0
NeverDiffers t =
    (p : Bytes) (m n : ℕ) (diff : ℤ) → t.memcmp_s p m p n ≡ some diff → is_zero diff ≡ true

-- The digests that a value takes in the row, and those of the first n values.
abbrev pub width : Digests → ℕ
width values = suc (values.count - 1)

abbrev pub before : List Digests → ℕ → ℕ
before [] n = 0
before (v ∷ vs) zero = 0
before (v ∷ vs) (suc n) = width v + before vs n

pub before-suc :
    (vs : List Digests) (n : ℕ) {v : Digests}
    → elem_at vs n ≡ ok v
    → before vs (suc n) ≡ before vs n + width v
before-suc [] n h = absurd (cc)
before-suc (v ∷ vs) zero {v = w} h =
    let same : v ≡ w = ok-injective h in
    let first : before vs 0 ≡ 0 = before-zero vs in rw (same, first) (omega arith)
  where
    before-zero : (vs : List Digests) → before vs 0 ≡ 0
    before-zero [] = refl
    before-zero (v ∷ vs) = refl
before-suc (v ∷ vs) (suc n) h = omega (arith, before-suc vs n h)

-- The PCRs below n that both select, and those of the first n banks.
abbrev pub is_yes : Result Bool → Bool
is_yes (ok b) = b
is_yes (err _) = false
is_yes fault = false

abbrev pub both : Selection → Selection → ℕ → ℕ
both s g n = if is_yes (is_selected s n) && is_yes (is_selected g n) then 1 else 0

abbrev pub common : Selection → Selection → ℕ → ℕ
common s g zero = 0
common s g (suc n) = common s g n + both s g n

abbrev pub bank_ids : Selection → Selection → ℕ
bank_ids s g = min (s.sizeof_select * 8) (g.sizeof_select * 8)

abbrev pub common_bank : Result Selection → Result Selection → ℕ
common_bank (ok s) (ok g) = common s g (bank_ids s g)
common_bank (ok s) (err _) = 0
common_bank (ok s) fault = 0
common_bank (err _) g = 0
common_bank fault g = 0

abbrev pub common_banks : List Selection → List Selection → ℕ → ℕ
common_banks ss gs zero = 0
common_banks ss gs (suc n) = common_banks ss gs n + common_bank (elem_at ss n) (elem_at gs n)
