-- ===== src/Memory.antt =====
-- Memory behind a `char *`, and the bounded functions of the C standard's Annex K on it.
-- A pointer is the list of bytes from it to the end of its object. `memcpy_s`, `strnlen_s`,
-- `strcpy_s` and `strcat_s` do what Annex K says; `rsize_max_str` is the library's RSIZE_MAX_STR.
pub mod Laws
use security_addon.Base.{
  leb, ℕ, zero, suc, ◌+◌, ◌<◌, min, Bool, true, false, List, [], ◌∷◌, ◌++◌, ltb, ◌==◌,
  if◌then◌else◌, Bytes, length, take, drop, replicate,
}

-- Memory that `calloc` or `memset` has cleared.
abbrev pub zeros : ℕ → Bytes
zeros k = replicate k 0

-- What `strlen` counts: the bytes before the first NUL.
abbrev pub c_string : Bytes → Bytes
c_string [] = []
c_string (b ∷ bs) = if b == 0 then [] else b ∷ c_string bs

-- `strnlen_s(p, max)`
unfoldable pub strnlen_s : Bytes → ℕ → ℕ
strnlen_s p max_len = min max_len (length (c_string p))

-- Bytes written at an offset. A write past the end would make the list longer.
unfoldable pub write_at : Bytes → ℕ → Bytes → Bytes
write_at mem at bytes = take at mem ++ (bytes ++ drop (at + length bytes) mem)

-- `strcpy_s(dest, dmax, src)` and `strcat_s(dest, dmax, src)` with `dest` at offset `at`. Without
-- room for the text and its NUL they report a violation and make `dest` the empty string.
unfoldable pub strcpy_s : Bytes → ℕ → ℕ → Bytes → Bytes
strcpy_s mem at dmax src =
    if ltb (length (c_string src)) dmax
    then write_at mem at (c_string src ++ 0 ∷ [])
    else write_at mem at (0 ∷ [])

unfoldable pub strcat_s : Bytes → ℕ → ℕ → Bytes → Bytes
strcat_s mem at dmax src =
    let dest = length (c_string (drop at mem)) in
    if ltb (dest + length (c_string src)) dmax
    then write_at mem (at + dest) (c_string src ++ 0 ∷ [])
    else write_at mem at (0 ∷ [])

-- `memcpy_s(dest, dmax, src, n)` at the start of `dest`: without room it clears `dest`. Sizes are
-- taken to be within the library's RSIZE_MAX_MEM (256 MB), above which it refuses.
unfoldable pub memcpy_s : Bytes → ℕ → Bytes → ℕ → Bytes
memcpy_s mem dmax src n =
    if leb n dmax then write_at mem 0 (take n src) else write_at mem 0 (zeros dmax)
