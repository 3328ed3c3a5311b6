-- ===== src/Memory/Laws.antt =====
-- Strings in memory: what stands before a NUL, and what a write leaves.
use security_addon.Base.{
  length-append, append_assoc, lt→ltb, le→not_ltb, ◌<◌, ℕ, zero, suc, ◌+◌, ◌-◌, ◌≤◌, min, ◌≡◌, ◌≢◌,
  refl, [], ◌∷◌, ◌++◌, append-nil, arith, Bytes, length, take, drop, length-drop, take-append,
}
use security_addon.Memory.{c_string, strnlen_s, zeros, write_at, strcat_s, strcpy_s}

pub strnlen_s-eq : (p : Bytes) (n : ℕ) → strnlen_s p n ≡ min n (length (c_string p))
unfolding strnlen_s
strnlen_s-eq p n = refl

-- A pointer moved over bytes of the text points to the rest of the text.
pub c_string-drop :
    (n : ℕ) (p : Bytes) → n ≤ length (c_string p) → c_string (drop n p) ≡ drop n (c_string p)
c_string-drop zero p h = refl
c_string-drop (suc n) [] h = refl
c_string-drop (suc n) (b ∷ p) h = ground (arith, c_string-drop n p)

pub length-c_string-drop :
    (n : ℕ) (p : Bytes)
    → n ≤ length (c_string p)
    → length (c_string (drop n p)) ≡ length (c_string p) - n
length-c_string-drop n p h = rw (c_string-drop n p h) (length-drop n (c_string p))

pub length-c_string-le : (p : Bytes) → length (c_string p) ≤ length p
length-c_string-le [] = omega arith
length-c_string-le (b ∷ p) = ground (arith, length-c_string-le p)

-- No byte of the text is NUL.
abbrev pub NulFree : Bytes → Type 0
NulFree [] = Unit
NulFree (b ∷ bs) = (b ≢ 0) × NulFree bs

pub NulFree-append : (s t : Bytes) → NulFree s → NulFree t → NulFree (s ++ t)
NulFree-append [] t h k = k
NulFree-append (b ∷ s) t h k = (h.0, NulFree-append s t h.1 k)

pub NulFree-drop : (n : ℕ) (s : Bytes) → NulFree s → NulFree (drop n s)
NulFree-drop zero s h = h
NulFree-drop (suc n) [] h = h
NulFree-drop (suc n) (b ∷ s) h = NulFree-drop n s h.1

pub NulFree-take : (n : ℕ) (s : Bytes) → NulFree s → NulFree (take n s)
NulFree-take zero s h = tt
NulFree-take (suc n) [] h = h
NulFree-take (suc n) (b ∷ s) h = (h.0, NulFree-take n s h.1)

pub c_string-NulFree : (p : Bytes) → NulFree (c_string p)
c_string-NulFree [] = tt
c_string-NulFree (b ∷ p) = ground (arith, c_string-NulFree p)

pub c_string-append_nul : (s r : Bytes) → NulFree s → c_string (s ++ (0 ∷ r)) ≡ s
c_string-append_nul [] r h = refl
c_string-append_nul (b ∷ s) r h = ground (arith, c_string-append_nul s r h.1)

pub c_string_self : (s : Bytes) → NulFree s → c_string s ≡ s
c_string_self [] h = refl
c_string_self (b ∷ s) h = ground (arith, c_string_self s h.1)

pub c_string-append_zeros : (s : Bytes) (k : ℕ) → NulFree s → c_string (s ++ zeros k) ≡ s
c_string-append_zeros s zero h = rw (append-nil s) (c_string_self s h)
c_string-append_zeros s (suc k) h = c_string-append_nul s (zeros k) h

pub drop-zeros : (n k : ℕ) → drop n (zeros k) ≡ zeros (k - n)
drop-zeros zero k = let e : k - 0 ≡ k = omega arith in rw e
drop-zeros (suc n) zero = let e : 0 - suc n ≡ 0 = omega arith in rw e
drop-zeros (suc n) (suc k) = let e : suc k - suc n ≡ k - n = omega arith in rw e (drop-zeros n k)

-- A write behind the text `s`, into the zeros that follow it.
pub write_at-zeros :
    (s t : Bytes) (k : ℕ) → write_at (s ++ zeros k) (length s) t ≡ s ++ (t ++ zeros (k - length t))
unfolding write_at
write_at-zeros s t k = rw (take-append s (zeros k), drop_past s t k, drop-zeros (length t) k)
  where
    drop_past :
        (s t : Bytes) (k : ℕ)
        → drop (length s + length t) (s ++ zeros k) ≡ drop (length t) (zeros k)
    drop_past [] t k = let e : 0 + length t ≡ length t = omega arith in rw e
    drop_past (b ∷ s) t k =
        let e : suc (length s) + length t ≡ suc (length s + length t) = omega arith in
        rw e (drop_past s t k)

-- The bytes copied from a text that is long enough are bytes of the text.
pub take-c_string : (n : ℕ) (p : Bytes) → n ≤ length (c_string p) → take n p ≡ take n (c_string p)
take-c_string zero p h = refl
take-c_string (suc n) [] h = elim h [ ]
take-c_string (suc n) (b ∷ p) h = ground (arith, take-c_string n p)

zeros-suc : (k n : ℕ) → n < k → 0 ∷ zeros (k - suc n) ≡ zeros (k - n)
zeros-suc k n h = let e : k - n ≡ suc (k - suc n) = omega arith in rw e

-- `strcat_s` onto a text `v` in cleared memory, with room for the text and its NUL.
pub strcat_s-zeros :
    (v : Bytes) (k at dmax : ℕ) (src : Bytes)
    → at + length (c_string (drop at (v ++ zeros k))) ≡ length v
    → length (c_string (drop at (v ++ zeros k))) + length (c_string src) < dmax
    → length (c_string src) < k
    → strcat_s (v ++ zeros k) at dmax src ≡ v ++ (c_string src ++ zeros (k - length (c_string src)))
unfolding strcat_s
strcat_s-zeros v k at dmax src end fits room =
    rw
      (
        lt→ltb _ _ fits,
        end,
        write_at-zeros v (c_string src ++ 0 ∷ []) k,
        append_assoc (c_string src) (0 ∷ []) (zeros (k - length (c_string src ++ 0 ∷ []))),
        length-append (c_string src) (0 ∷ []),
      )
      (let e : length (c_string src) + 1 ≡ suc (length (c_string src)) = omega arith in
        rw (e, zeros-suc k (length (c_string src)) room))

-- Without room, `strcat_s` at the start of the memory leaves the empty text.
pub strcat_s_refused :
    (mem : Bytes) (dmax : ℕ) (src : Bytes)
    → dmax ≤ length (c_string mem) + length (c_string src)
    → c_string (strcat_s mem 0 dmax src) ≡ []
unfolding strcat_s write_at
strcat_s_refused mem dmax src h = rw (le→not_ltb _ _ h)

-- `strcpy_s` of a text into a cleared block that has room for it.
pub strcpy_s-zeros :
    (k dmax : ℕ) (src : Bytes)
    → length (c_string src) < dmax
    → length (c_string src) < k
    → strcpy_s (zeros k) 0 dmax src ≡ c_string src ++ zeros (k - length (c_string src))
unfolding strcpy_s
strcpy_s-zeros k dmax src fits room =
    rw
      (
        lt→ltb _ _ fits,
        write_at-zeros [] (c_string src ++ 0 ∷ []) k,
        append_assoc (c_string src) (0 ∷ []) (zeros (k - length (c_string src ++ 0 ∷ []))),
        length-append (c_string src) (0 ∷ []),
      )
      (let e : length (c_string src) + 1 ≡ suc (length (c_string src)) = omega arith in
        rw (e, zeros-suc k (length (c_string src)) room))
