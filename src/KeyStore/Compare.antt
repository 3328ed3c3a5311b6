-- ===== src/KeyStore/Compare.antt =====
-- The comparison of certificates in libovsa: utils.c, `ovsa_compare_strings`.
-- `ovsa_get_string_length` of libovsa is, but for its messages, that of the license service.
-- `strcmp_s` and RSIZE_MAX_STR belong to the safe string library. Its errors are for a null pointer, a
-- bound of zero and one above RSIZE_MAX_STR, and the callers pass none of these: the pointers are not
-- null, a bound that is not RSIZE_MAX_STR is a length that is not zero and is below it, or the size of
-- a field. So the model of it has no error.
use security_addon.Base.{
  ℕ, zero, suc, ◌-◌, ◌*◌, ◌^◌, ◌≤◌, ◌<◌, ◌≡◌, sym, ap, ◌∙◌, inl, inr, Bool, true, false, not, ◌||◌,
  some, [], ◌∷◌, arith, ltb, ◌==◌, if◌then◌else◌, Bytes, Bool-cases, length, drop,
}
use security_addon.Base.{equal, equal_iff, length-drop}
use security_addon.Memory.{c_string}
use security_addon.Memory.Laws.{c_string-drop, length-c_string-drop}
use security_addon.Status.{Result, fault, ok, err, ◌>>=◌, invalid_file_path}
use security_addon.Strings.{get_string_length}
use security_addon.Strings.Length.{get_string_length-exact}

-- The documented comparison: below a positive bound on both texts, no difference means equal texts.
abbrev pub Compares : (Bytes → ℕ → Bytes → Bool) → Type 0
Compares strcmp_s =
    (dest : Bytes) (dmax : ℕ) (src : Bytes)
    → 0 < dmax
    → length (c_string dest) ≤ dmax
    → length (c_string src) ≤ dmax
    → strcmp_s dest dmax src ≡ equal (c_string dest) (c_string src)

-- A length, with every error of the call reported as another.
abbrev pub nonempty_length : Result ℕ → Result ℕ
nonempty_length fault = fault
nonempty_length (err _) = err invalid_file_path
nonempty_length (ok len) = if len == 0 then err invalid_file_path else ok len

abbrev pub chunk_length : Result ℕ → Result ℕ
chunk_length fault = fault
chunk_length (err _) = err invalid_file_path
chunk_length (ok len) = ok len

module _ (rsize_max_str : ℕ) (strcmp_s : Bytes → ℕ → Bytes → Bool) where
  -- `while (buff_len >= RSIZE_MAX_STR)`, with whether `*indicator` is 0; the fuel bounds the chunks.
  unfoldable compare_loop : ℕ → Bytes → Bytes → Bool → Result Bool
  compare_loop zero src_buff dest_buff same = ok same
  compare_loop (suc fuel) src_buff dest_buff same =
      let src_buff_ptr = drop rsize_max_str src_buff in
      let dest_buff_ptr = drop rsize_max_str dest_buff in
      let rest = compare_loop fuel src_buff_ptr dest_buff_ptr true in
      chunk_length (get_string_length rsize_max_str (some src_buff_ptr)) >>= λ buff_len.
      if ltb buff_len rsize_max_str
      then ok (if buff_len == 0 then same else strcmp_s src_buff_ptr buff_len dest_buff_ptr)
      else if strcmp_s src_buff_ptr rsize_max_str dest_buff_ptr
      then rest
      else ok false

  -- `ovsa_compare_strings` of two buffers that are not NULL: whether `*indicator` is 0.
  unfoldable pub compare_strings : Bytes → Bytes → Result Bool
  unfolding compare_loop
  compare_strings src_buff dest_buff = do
    src_buff_len ← nonempty_length (get_string_length rsize_max_str (some src_buff))
    dest_buff_len ← nonempty_length (get_string_length rsize_max_str (some dest_buff))
    let start = strcmp_s src_buff rsize_max_str dest_buff
    let chunks = compare_loop (length src_buff) src_buff dest_buff start
    if not (src_buff_len == dest_buff_len)
        then ok false
        else if ltb src_buff_len rsize_max_str
        then ok (strcmp_s src_buff src_buff_len dest_buff)
        else chunks

  module _ (compares : Compares strcmp_s) (r_pos : 0 < rsize_max_str) where
    measured :
        (p : Bytes)
        → length p < 2 ^ 64
        → get_string_length rsize_max_str (some p) ≡ ok (length (c_string p))
    measured p small = (get_string_length-exact rsize_max_str r_pos p small).0

    -- Two texts shorter than the library's bound are compared whole; an empty one is an error, and
    -- texts of different lengths differ.
    pub compare_strings-exact :
        (src dest : Bytes)
        → length src < 2 ^ 64
        → length dest < 2 ^ 64
        → length (c_string src) < rsize_max_str
        → compare_strings src dest ≡ (
            if length (c_string src) == 0 || length (c_string dest) == 0
            then err invalid_file_path
            else ok (equal (c_string src) (c_string dest)))
    unfolding compare_strings
    compare_strings-exact src dest src_small dest_small short =
        let n : ℕ = length (c_string src) in
        let m : ℕ = length (c_string dest) in
        rw (measured src src_small, measured dest dest_small)
          (elim (Bool-cases (n == 0)) [
            | inl empty ↦ rw empty
            | inr full ↦ elim (Bool-cases (m == 0)) [
              | inl empty ↦ rw (full, empty)
              | inr full' ↦ elim (Bool-cases (n == m)) [
                | inl same ↦
                    let below : ltb n rsize_max_str ≡ true = ground arith in
                    rw (full, full', same, below)
                      (ap ok (compares src n dest (ground arith) (omega arith) (ground arith)))
                | inr differ ↦ rw (full, full', differ) (ap ok (sym (lengths_differ differ)))
              ]
            ]
          ])
      where
        lengths_differ :
            (length (c_string src) == length (c_string dest)) ≡ false
            → equal (c_string src) (c_string dest) ≡ false
        lengths_differ differ = elim (Bool-cases (equal (c_string src) (c_string dest))) [
          | inr e ↦ e
          | inl e ↦
              let same : length (c_string src) ≡ length (c_string dest) =
                ap length ((equal_iff (c_string src) (c_string dest)).0 e) in
              absurd (ground arith)
        ]

    last_chunk :
        (fuel : ℕ) (src dest : Bytes) (same : Bool)
        → length src < 2 ^ 64
        → length (c_string src) ≡ length (c_string dest)
        → rsize_max_str < length (c_string src)
        → length (c_string src) < 2 * rsize_max_str
        → compare_loop (suc fuel) src dest same
          ≡ ok (equal (drop rsize_max_str (c_string src)) (drop rsize_max_str (c_string dest)))
    unfolding compare_loop
    last_chunk fuel src dest same small same_length long bound =
        let r : ℕ = rsize_max_str in
        let left : length (c_string (drop r src)) ≡ length (c_string src) - r =
          length-c_string-drop r src (omega arith) in
        let right : length (c_string (drop r dest)) ≡ length (c_string dest) - r =
          length-c_string-drop r dest (omega arith) in
        let below : ltb (length (c_string src) - r) r ≡ true = ground arith in
        let some_left : (length (c_string src) - r == 0) ≡ false = ground arith in
        let compared =
          compares (drop r src) (length (c_string src) - r) (drop r dest) (omega arith)
            (omega arith) (omega arith) in
        rw (measured (drop r src) (omega (arith, length-drop r src)), left, below, some_left)
          (ap ok
            (compared ∙ rw (c_string-drop r src (omega arith), c_string-drop r dest (omega arith))))

    -- Two texts of one length, longer than the bound and shorter than two, are only compared from
    -- the bound on: what the first chunk's comparison finds is lost.
    pub compare_strings-tail :
        (src dest : Bytes)
        → length src < 2 ^ 64
        → length dest < 2 ^ 64
        → length (c_string src) ≡ length (c_string dest)
        → rsize_max_str < length (c_string src)
        → length (c_string src) < 2 * rsize_max_str
        → compare_strings src dest
          ≡ ok (equal (drop rsize_max_str (c_string src)) (drop rsize_max_str (c_string dest)))
    unfolding compare_strings
    compare_strings-tail [] dest src_small dest_small same_length long bound = absurd (omega arith)
    compare_strings-tail (b ∷ bs) dest src_small dest_small same_length long bound =
        let n : ℕ = length (c_string (b ∷ bs)) in
        let some_left : (n == 0) ≡ false = ground arith in
        let same : (n == n) ≡ true = ground arith in
        let over : ltb n rsize_max_str ≡ false = ground arith in
        rw
          (
            measured (b ∷ bs) src_small,
            measured dest dest_small,
            sym same_length,
            some_left,
            same,
            over,
          )
          (last_chunk (length bs) (b ∷ bs) dest (strcmp_s (b ∷ bs) rsize_max_str dest) src_small
            same_length long bound)
