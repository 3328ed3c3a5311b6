-- ===== src/Strings/Length.antt =====
-- `get_string_length` against `strlen`.
use security_addon.Base.{
  ℕ, zero, suc, ◌+◌, ◌^◌, ◌≤◌, ◌<◌, ◌≡◌, refl, none, some, arith, ltb, if◌then◌else◌, Bytes, length,
  drop,
}
use security_addon.Memory.{c_string, strnlen_s}
use security_addon.Memory.Laws.{strnlen_s-eq, length-c_string-drop, length-c_string-le}
use security_addon.Status.{ok, err, invalid_parameter, integer_overflow}
use security_addon.Strings.{safe_add, length_loop, get_string_length}

-- For a first operand below 2 ^ 64, the checked sum is the sum when it fits a `size_t`, and an
-- overflow error exactly when not.
pub safe_add-exact :
    (a b : ℕ)
    → a < 2 ^ 64
    → safe_add a b ≡ (if ltb (a + b) (2 ^ 64) then ok (a + b) else err integer_overflow)
unfolding safe_add
safe_add-exact a b h = ground arith

pub safe_add-ok : (a b : ℕ) → a + b < 2 ^ 64 → safe_add a b ≡ ok (a + b)
unfolding safe_add
safe_add-ok a b h = ground arith

module _ (r : ℕ) (r_pos : 0 < r) where
  length_loop-exact :
      (fuel total : ℕ) (p : Bytes)
      → total + r ≤ length (c_string p)
      → length (c_string p) < fuel + total
      → length (c_string p) < 2 ^ 64
      → length_loop r fuel p total ≡ ok (length (c_string p))
  unfolding length_loop
  length_loop-exact zero total p more fuel small = absurd (omega arith)
  length_loop-exact (suc fuel) total p more enough small = rw (safe_add-ok total r (omega arith)) (
      ground (
        arith,
        strnlen_s-eq (drop (total + r) p) r,
        length-c_string-drop (total + r) p more,
        safe_add-ok (total + r) (strnlen_s (drop (total + r) p) r),
        length_loop-exact fuel (total + r) p,
      ))

  -- Whatever the positive chunk size, the chunked count is `strlen`, for every object below 2 ^ 64
  -- bytes; NULL is refused.
  pub get_string_length-exact :
      (p : Bytes)
      → length p < 2 ^ 64
      → (get_string_length r (some p) ≡ ok (length (c_string p)))
        × (get_string_length r none ≡ err invalid_parameter)
  unfolding get_string_length
  get_string_length-exact p small = (
    ground (arith, strnlen_s-eq p r, length-c_string-le p, length_loop-exact (suc (length p)) 0 p),
    refl,
  )
