-- ===== src/Pcr/Read.antt =====
-- The PCRs that `ovsa_license_service_do_validate_pcr` of license_service_server.c reads from a
-- quote's file and from a golden quote, and `ovsa_license_service_crypto_convert_base64_to_bin` of
-- crypto.c, both of License_service/src/app.
use security_addon.Base.{
  ℕ, zero, suc, Bool, not, Option, none, some, List, [], ◌∷◌, ◌++◌, ltb, ◌==◌, if◌then◌else◌, Bytes,
  length, take, drop,
}
use security_addon.Base.Int.{ℤ}
use security_addon.Memory.{write_at}
use security_addon.Status.{
  Result, fault, ok, err, ⊤, guard, ◌>>=◌, ◌>>◌, pcr_count_not_valid, fileopen_fail, fileio_fail,
  crypto_bio_error, invalid_parameter,
}
use security_addon.Strings.{get_string_length, safe_malloc, size_max}
use security_addon.Pcr.{Digests, Pcrs, Selections, Tpm, do_verify_pcr_ids}

-- `bin_len <= 0` of a `size_t`: -1 is the length 2 ^ 64 - 1, and no error.
abbrev pub bin_read : Option Bytes → Result (Bytes × ℕ)
bin_read none = ok ([], size_max)
bin_read (some []) = err crypto_bio_error
bin_read (some (b ∷ bs)) = ok (b ∷ bs, length (b ∷ bs))

-- `ovsa_license_service_crypto_convert_base64_to_bin`: the bytes put into `out_buff`, and
-- `*out_buff_len`.
unfoldable pub convert_base64_to_bin : Tpm → Bytes → ℕ → Result (Bytes × ℕ)
convert_base64_to_bin t in_buff in_buff_len = do
  guard (not (in_buff_len == 0)) invalid_parameter
  guard t.bio_new crypto_bio_error
  guard t.bio_new_mem_buf crypto_bio_error
  bin_read (t.bio_read (take in_buff_len in_buff))

-- The next struct of a file or of a block of memory, which may be too short for it. The source has no
-- test for the block: a read behind its end is undefined, which the caller passes as `fault`.
unfoldable pub next_struct : Result (Bytes × Bytes) → ℕ → Bytes → Result (Bytes × Bytes)
next_struct short size bytes =
    if ltb (length bytes) size then short else ok (take size bytes, drop size bytes)

unfoldable pub read_digests : Tpm → Result (Bytes × Bytes) → ℕ → Bytes → Result (List Digests)
unfolding next_struct
read_digests t short zero bytes = ok []
read_digests t short (suc count) bytes =
    next_struct short t.sizeof_digests bytes >>= λ (values, rest).
    read_digests t short count rest >>= λ digests. ok (t.digests_of values ∷ digests)

-- The selection, the number of values and the values, from a file or from memory.
unfoldable pub read_pcrs : Tpm → Result (Bytes × Bytes) → Bytes → Result (Selections × Pcrs)
unfolding next_struct read_digests
read_pcrs t short bytes = do
  (selections, rest) ← next_struct short t.sizeof_selections bytes
  (uint32, rest') ← next_struct short 4 rest
  let count = t.uint32_of uint32
  guard (not (ltb t.max_pcrs count)) pcr_count_not_valid
  digests ← read_digests t short count rest'
  ok (
    t.selections_of selections,
    record { count = count; pcr_values = digests ++ drop count t.stack },
  )

abbrev pub size_of : Result ℕ → ℕ
size_of (ok size) = size
size_of (err _) = 0
size_of fault = 0

-- `fopen(quote_pcr_file, "rb")`
abbrev pub open_file : Option Bytes → Result Bytes
open_file none = err fileopen_fail
open_file (some file) = ok file

-- `ovsa_license_service_do_validate_pcr`. The length's status is overwritten by the allocation's.
-- The golden values are copied from the block that base64 was decoded into, however long that is.
unfoldable pub do_validate_pcr : Tpm → ℕ → (ℕ → Bool) → Option Bytes → Bytes → ℤ → Result ⊤
unfolding next_struct read_digests read_pcrs do_verify_pcr_ids convert_base64_to_bin
do_validate_pcr t rsize_max_str allocates quote_pcr golden_quote pcr_id_set = do
  file ← open_file (t.pcr_bin quote_pcr)
  (pcr_selections, pcrs) ← read_pcrs t (err fileio_fail) file
  let size = size_of (get_string_length rsize_max_str (some golden_quote))
  block ← safe_malloc allocates size
  (bin, _) ← convert_base64_to_bin t golden_quote size
  (golden_pcr_selections, golden_pcrs) ← read_pcrs t fault (write_at block 0 bin)
  do_verify_pcr_ids t pcr_selections pcrs golden_pcr_selections golden_pcrs pcr_id_set
