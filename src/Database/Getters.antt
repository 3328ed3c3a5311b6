-- ===== src/Database/Getters.antt =====
-- What the getters of texts hand out.
use security_addon.Base.{
  lt→ltb, ℕ, ◌<◌, min, ◌≡◌, refl, sym, ap, ◌∙◌, ◌≢◌, Bool, true, false, not, ◌||◌, Option, none,
  some, [], arith, ltb, ◌==◌, Bytes, length,
}
use security_addon.Memory.{c_string, strnlen_s}
use security_addon.Strings.{get_string_length}
use security_addon.Status.{Result, ok, fault, ⊤, guard, ok_of_>>=, Status, invalid_parameter}
use security_addon.Database.{
  Table, Calls, step_row, get_column, get_customer_primary_certificate, max_cert_size,
}

-- The text of a column, where it is not NULL.
abbrev column_text : ℕ → Option Bytes → Result (ℕ × Bytes)
column_text id none = fault
column_text id (some text) = ok (id, c_string text)

ok-injective : {A : Type 0} {a b : A} → ok a ≡ ok b → a ≡ b
ok-injective e = cc

counts_none :
    (r id : ℕ) (column : Option Bytes) {len : ℕ} {out : ℕ × Bytes}
    → 0 < r
    → get_string_length r column ≡ ok len
    → column_text id column ≡ ok out
    → out.1 ≡ []
    → len ≡ 0
unfolding get_string_length strnlen_s
counts_none r id none positive counted given empty = cc
counts_none r id (some text) {len} {out} positive counted given empty =
    let same : (id, c_string text) ≡ out = ok-injective given in
    let no_text : c_string text ≡ [] = ap (λ x. x.1) same ∙ empty in
    let counted' = rw no_text at counted in
    let nothing : min r (length {A = ℕ} []) ≡ 0 = omega arith in
    let counted2 = rw (nothing, lt→ltb 0 r positive) at counted' in sym (ok-injective counted2)

guard-holds : (b : Bool) (e : Status) {a : ⊤} → guard b e ≡ ok a → b ≡ true
guard-holds true e h = refl
guard-holds false e h = absurd (cc)

-- A certificate that the database hands out is not empty; RSIZE_MAX_STR is not 0.
pub get_customer_primary_certificate-nonempty :
    (c : Calls) (t : Table) (l m : Bytes) {out : ℕ × Bytes}
    → 0 < c.rsize_max_str
    → get_customer_primary_certificate c t l m ≡ ok out
    → out.1 ≢ []
unfolding get_customer_primary_certificate get_column
get_customer_primary_certificate-nonempty c t l m {out} positive h empty =
    let (row, _, h1) = ok_of_>>= (step_row c t l m) _ h in
    let (len, counted, h2) =
      ok_of_>>= (get_string_length c.rsize_max_str row.customer_primary_certificate) _ h1 in
    let (_, allowed, given) = ok_of_>>= _ _ h2 in
    let (_, in_range, _) =
      ok_of_>>= (guard (not (len == 0 || ltb max_cert_size len)) invalid_parameter) _ allowed in
    let valid : not (len == 0 || ltb max_cert_size len) ≡ true = guard-holds _ _ in_range in
    let zero_len : len ≡ 0 =
      counts_none c.rsize_max_str row.customer_license_id row.customer_primary_certificate positive
        counted given empty in
    let contradiction : false ≡ true = rw zero_len at valid in cc
