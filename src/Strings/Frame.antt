-- ===== src/Strings/Frame.antt =====
-- The length prefix of a message, against the wire format: eight digits and the text.
use security_addon.Strings.Concat.{string_concat_appends_or_loses}
use security_addon.Status.{ok}
use security_addon.Strings.Length.{get_string_length-exact}
use security_addon.Decimal.Laws.{AllDigits, length-print_padded, print_padded-AllDigits}
use security_addon.Memory.{strnlen_s, zeros, c_string}
use security_addon.Decimal.{print_padded}
use security_addon.Memory.Laws.{
  strcpy_s-zeros, c_string-append_nul, strnlen_s-eq, c_string_self, NulFree,
}
use security_addon.Base.{
  take_all, ℕ, ◌+◌, ◌-◌, ◌^◌, ◌≤◌, ◌<◌, min, ◌≡◌, sym, ap, ◌∙◌, ◌⊎◌, some, [], ◌∷◌, ◌++◌,
  append_assoc, arith, Bytes, length,
}
use security_addon.Strings.{
  ok, string_concat, print_padded, c_string, append_payload_len_to_blob, payload_length,
}

-- A message as it travels.
abbrev pub frame : Bytes → Bytes
frame text = print_padded (length text) ++ text

AllDigits-NulFree : (ds : Bytes) → AllDigits ds → NulFree ds
AllDigits-NulFree [] h = tt
AllDigits-NulFree (d ∷ ds) h = (ground arith, AllDigits-NulFree ds h.1)

pub print_padded-NulFree : (n : ℕ) → NulFree (print_padded n)
print_padded-NulFree n = AllDigits-NulFree (print_padded n) (print_padded-AllDigits n)

module _ (r : ℕ) (r_min : payload_length < r) (p : Bytes) (k : ℕ) where
  prefixed :
      length p < 2 ^ 64
      → length (c_string p) < 10 ^ 8
      → 8 < k
      → append_payload_len_to_blob r (some p) (zeros k)
        ≡ string_concat r (some p) (some (print_padded (length (c_string p)) ++ zeros (k - 8)))
  unfolding append_payload_len_to_blob
  prefixed object small room =
      rw
        (
          (get_string_length-exact r (omega arith) p object).0,
          take_all 8 header (omega (arith, length_is)),
        )
        (rw (
          strcpy_s-zeros k (strnlen_s (header ++ 0 ∷ []) r + 1) header
              (omega (arith, text_is, length_is, count_is)) (omega (arith, text_is, length_is)),
          c_string_self header (print_padded-NulFree (length (c_string p))),
          length_is,
        ))
    where
      header : Bytes
      header = print_padded (length (c_string p))

      length_is : length header ≡ 8
      length_is = length-print_padded (length (c_string p)) small

      text_is : length (c_string header) ≡ length header
      text_is = ap length (c_string_self header (print_padded-NulFree (length (c_string p))))

      count_is : strnlen_s (header ++ 0 ∷ []) r ≡ min r (length header)
      count_is = rw (
        strnlen_s-eq (header ++ 0 ∷ []) r,
        c_string-append_nul header [] (print_padded-NulFree (length (c_string p))),
      )

  header_of : Bytes
  header_of = print_padded (length (c_string p))

  -- In a cleared block with room for prefix, message and NUL, a message below 10 ^ 8 bytes in an
  -- object below 2 ^ 64 gets its frame, if RSIZE_MAX_STR is above 8 and either more than prefix and
  -- message together or no more than the message alone.
  pub append_payload_len-frame :
      length p < 2 ^ 64
      → length (c_string p) < 10 ^ 8
      → 8 + length (c_string p) < k
      → (8 + length (c_string p) < r) ⊎ (r ≤ length (c_string p))
      → append_payload_len_to_blob r (some p) (zeros k)
        ≡ ok (frame (c_string p) ++ zeros (k - 8 - length (c_string p)))
  unfolding header_of
  append_payload_len-frame object small room fits =
      let length_is : length header_of ≡ 8 = length-print_padded (length (c_string p)) small in
      rw (prefixed object small (omega arith)) (
        (string_concat_appends_or_loses r (omega arith) header_of p (k - 8)
            (print_padded-NulFree (length (c_string p))) (omega (arith, length_is)) (omega arith)).0
          (omega (arith, length_is, fits))
        ∙ ap ok (sym (append_assoc header_of (c_string p) (zeros (k - 8 - length (c_string p))))))

  -- A message that is shorter than RSIZE_MAX_STR, and with its length prefix is not, is lost: the
  -- call returns OVSA_OK, and the block holds the empty text. RSIZE_MAX_STR is above 8, the message
  -- below 10 ^ 8 bytes in an object below 2 ^ 64, and the block is cleared and has room.
  pub append_payload_len-loses :
      length p < 2 ^ 64
      → length (c_string p) < 10 ^ 8
      → 8 + length (c_string p) < k
      → length (c_string p) < r
      → r ≤ 8 + length (c_string p)
      → (mem : Bytes) × (append_payload_len_to_blob r (some p) (zeros k) ≡ ok mem)
        × (c_string mem ≡ [])
  unfolding header_of
  append_payload_len-loses object small room short over =
      let length_is : length header_of ≡ 8 = length-print_padded (length (c_string p)) small in
      rw (prefixed object small (omega arith)) (
        (string_concat_appends_or_loses r (omega arith) header_of p (k - 8)
            (print_padded-NulFree (length (c_string p))) (omega (arith, length_is)) (omega arith)).1
          short (omega (arith, length_is)))
