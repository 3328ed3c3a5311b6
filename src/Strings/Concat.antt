-- ===== src/Strings/Concat.antt =====
-- `string_concat` into cleared memory: when it appends, and when the text is lost.
use security_addon.Status.{ok}
use security_addon.Memory.Laws.{
  strcat_s_refused, NulFree, strnlen_s-eq, c_string-drop, take-c_string, strcat_s-zeros,
  length-c_string-le, length-c_string-drop, write_at-zeros, c_string-append_zeros,
}
use security_addon.Base.{
  le→not_ltb, lt→ltb, take-append-drop, tests, length-drop, length-take, length-append, drop-append,
  ℕ, zero, suc, ◌+◌, ◌-◌, ◌≤◌, ◌<◌, ◌≡◌, ap, ◌∙◌, ◌⊎◌, inl, inr, some, [], ◌++◌, append_assoc,
  arith, ltb, Bytes, Bool-cases, length, take, drop,
}
use security_addon.Memory.{strcat_s, strnlen_s, c_string, zeros}
use security_addon.Strings.{ok, concat_loop, string_concat}

-- `p` copied behind the text `v` in cleared memory with `k` bytes left.
abbrev pub appended : Bytes → Bytes → ℕ → Bytes
appended v p k = v ++ (c_string p ++ zeros (k - length (c_string p)))

drop_text : (v : Bytes) (k : ℕ) → drop (length v) (v ++ zeros k) ≡ zeros k
drop_text v k = drop-append v (zeros k)

length-c_string-zeros : (v : Bytes) (k : ℕ) → length (c_string (drop (length v) (v ++ zeros k))) ≡ 0
length-c_string-zeros v k = rw (drop_text v k, c_string-append_zeros [] k tt)

-- Copying the first `r` bytes and then the rest copies the text.
appended-appended :
    (r : ℕ) (v p : Bytes) (k : ℕ)
    → r ≤ length (c_string p)
    → appended (v ++ take r p) (drop r p) (k - length (take r p)) ≡ appended v p k
appended-appended r v p k h =
    rw (take-c_string r p h, c_string-drop r p h, append_assoc v (take r (c_string p)) _)
      (rw (← append_assoc (take r (c_string p)) (drop r (c_string p)) _)
        (rw (take-append-drop r (c_string p), sizes)))
  where
    sizes :
        k - length (take r (c_string p)) - length (drop r (c_string p)) ≡ k - length (c_string p)
    sizes = omega (arith, length-take r (c_string p), length-drop r (c_string p))

-- Behind `r` bytes of the text the rest is shorter, and the new end is where it was written to.
length-append-take :
    (r : ℕ) (v p : Bytes) → r ≤ length (c_string p) → length v + r ≡ length (v ++ take r p)
length-append-take r v p h =
    omega (arith, length-append v (take r p), length-take r p, length-c_string-le p)

module _ (r : ℕ) (r_pos : 0 < r) where
  concat_loop-appended :
      (fuel : ℕ) (v : Bytes) (k cur : ℕ) (p : Bytes)
      → cur + strnlen_s (drop cur (v ++ zeros k)) r ≡ length v
      → r ≤ length (c_string p)
      → length (c_string p) < fuel
      → length (c_string p) < k
      → concat_loop r fuel (v ++ zeros k) cur p ≡ appended v p k
  unfolding concat_loop
  concat_loop-appended zero v k cur p at chunk enough room = absurd (omega arith)
  concat_loop-appended (suc fuel) v k cur p at chunk enough room =
      let written = v ++ take r p in
      let spare = k - length (take r p) in
      let len = length-append-take r v p chunk in
      let gone = length-c_string-zeros written spare in
      let left = length-c_string-drop r p chunk in
      let taken = length-take r p in
      let long = length-c_string-le p in
      rw (at, write_at-zeros v (take r p) k, ← append_assoc v (take r p) (zeros spare), len)
        (elim (Bool-cases (ltb (strnlen_s (drop r p) r) r)) [
          | inl short ↦ rw short (
              strcat_s-zeros written spare (length written) r (drop r p) (omega arith)
                (omega (tests, strnlen_s-eq (drop r p) r)) (omega arith)
              ∙ appended-appended r v p k chunk)
          | inr more ↦ rw more (
              concat_loop-appended fuel written spare (length written) (drop r p)
                (omega (arith, strnlen_s-eq (drop (length written) (written ++ zeros spare)) r))
                (ground (arith, strnlen_s-eq (drop r p) r)) (omega arith) (omega arith)
              ∙ appended-appended r v p k chunk)
        ])

  -- `string_concat` puts a text behind the text `v` of a cleared block with room for both, if both
  -- fit RSIZE_MAX_STR or the appended text alone fills it. In between, where only the sum does not
  -- fit, it returns OVSA_OK as well, and leaves the empty text.
  pub string_concat_appends_or_loses :
      (v p : Bytes) (k : ℕ)
      → NulFree v
      → length v < r
      → length (c_string p) < k
      → ((length v + length (c_string p) < r) ⊎ (r ≤ length (c_string p))
          → string_concat r (some p) (some (v ++ zeros k)) ≡ ok (appended v p k))
        × (length (c_string p) < r
            → r ≤ length v + length (c_string p)
            → (mem : Bytes) × (string_concat r (some p) (some (v ++ zeros k)) ≡ ok mem)
              × (c_string mem ≡ []))
  unfolding string_concat
  string_concat_appends_or_loses v p k nul_free fits room = (appends, loses)
    where
      text : c_string (v ++ zeros k) ≡ v
      text = c_string-append_zeros v k nul_free

      appends :
          (length v + length (c_string p) < r) ⊎ (r ≤ length (c_string p))
          → string_concat r (some p) (some (v ++ zeros k)) ≡ ok (appended v p k)
      appends (inl both) = rw (lt→ltb (strnlen_s p r) r (omega (arith, strnlen_s-eq p r))) (
          ap ok (
            strcat_s-zeros v k 0 r p (omega (arith, ap length text)) (omega (arith, ap length text))
              room))
      appends (inr long) = rw (le→not_ltb (strnlen_s p r) r (omega (arith, strnlen_s-eq p r))) (
          ap ok (
            concat_loop-appended (suc (length p)) v k 0 p
              (omega (arith, strnlen_s-eq (v ++ zeros k) r, ap length text)) long
              (omega (arith, length-c_string-le p)) room))

      loses :
          length (c_string p) < r
          → r ≤ length v + length (c_string p)
          → (mem : Bytes) × (string_concat r (some p) (some (v ++ zeros k)) ≡ ok mem)
            × (c_string mem ≡ [])
      loses short over = (
        strcat_s (v ++ zeros k) 0 r p,
        rw (lt→ltb (strnlen_s p r) r (omega (arith, strnlen_s-eq p r))),
        strcat_s_refused (v ++ zeros k) r p (omega (arith, ap length text)),
      )
