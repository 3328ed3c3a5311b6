-- ===== src/Protocol/Tcb/Fits.antt =====
-- What a platform has shown when the check of its quotes against the license's TCBs succeeds.
use security_addon.Pcr.Read.{do_validate_pcr}
use security_addon.Base.{
  ◌≡◌, refl, sym, ap, ◌⊎◌, inl, inr, Bool, true, false, not, ◌&&◌, ◌||◌, Option, List, [], ◌∷◌,
  ◌++◌, Bytes, Bool-cases,
}
use security_addon.Base.{When, when_true, equal}
use security_addon.Status.{
  ◌>>=◌, Status, Result, ok, err, fault, ⊤, guard, ok_of_>>=, ok-injective, tcb_not_valid,
  pcr_validation_failed,
}
use security_addon.Protocol.{Status, Platform, Quote, TcbInfo}
use security_addon.Protocol.Tcb.{
  do_validate_pcr, pcr_id_set, validate_quote_pcrs, is_some, do_validate_sw_hw_pcrs, next_tcb,
  do_validate_tpm_quote,
}

-- The code's comparison of a quote's PCRs with a golden quote's ends in OVSA_OK.
abbrev pub Matches : Platform → Option Bytes → Bytes → Bytes → Type 0
Matches p quote_pcr golden id_set =
    do_validate_pcr p.tpm p.rsize_max_str p.allocates quote_pcr golden (pcr_id_set p id_set) ≡ ok tt

-- The quotes fit a TCB: there is one at least, each has a golden quote, and the code's
-- comparison with every golden quote ends in OVSA_OK.
abbrev pub Fits : Platform → Quote → Quote → TcbInfo → Type 0
Fits p sw hw tcb =
    ((is_some sw.quote_pcr || is_some hw.quote_pcr) ≡ true)
    × When (is_some sw.quote_pcr) (equal tcb.sw_quote [] ≡ false)
    × When (is_some hw.quote_pcr) (equal tcb.hw_quote [] ≡ false)
    × When (not (equal tcb.sw_quote [])) (Matches p sw.quote_pcr tcb.sw_quote tcb.sw_pcr_id_set)
    × When (not (equal tcb.hw_quote [])) (Matches p hw.quote_pcr tcb.hw_quote tcb.hw_pcr_id_set)

validate_quote_pcrs-Matches :
    (p : Platform) (quote_pcr : Option Bytes) (golden id_set : Bytes) {b : Bool}
    → validate_quote_pcrs p quote_pcr golden id_set ≡ ok b
    → (b ≡ not (equal golden [])) × (equal golden [] ≡ false → Matches p quote_pcr golden id_set)
unfolding validate_quote_pcrs
validate_quote_pcrs-Matches p quote_pcr golden id_set h = elim (Bool-cases (equal golden [])) [
  | inl empty ↦ (rw empty (sym (ok-injective (rw empty at h))), λ e. absurd (cc))
  | inr full ↦
      let (a, run, done) =
        ok_of_>>=
          (do_validate_pcr p.tpm p.rsize_max_str p.allocates quote_pcr golden (pcr_id_set p id_set))
          (λ _. ok true) (rw full at h) in
      (rw full (sym (ok-injective done)), λ _. run)
]

guards-ok :
    (a b : Bool) (e f : Status) → (guard a e >>= λ _. guard b f) ≡ ok tt → (a ≡ true) × (b ≡ true)
guards-ok true true e f h = (refl, refl)
guards-ok true false e f h = absurd (cc)
guards-ok false b e f h = absurd (cc)

-- The source's condition for a valid TCB, on the quotes received and the PCRs validated.
abbrev quotes_valid : Bool → Bool → Bool → Bool → Bool
quotes_valid a b s w = a && b && (s && w) || a && not b && s || b && not a && w

fits_any : (a b s w : Bool) → quotes_valid a b s w ≡ true → (a || b) ≡ true
fits_any true b s w h = refl
fits_any false true s w h = refl
fits_any false false s w h = absurd (cc)

fits_sw : (a b s w : Bool) → quotes_valid a b s w ≡ true → a ≡ true → s ≡ true
fits_sw true b true w h e = refl
fits_sw true true false w h e = absurd (cc)
fits_sw true false false w h e = absurd (cc)
fits_sw false b s w h e = absurd (cc)

fits_hw : (a b s w : Bool) → quotes_valid a b s w ≡ true → b ≡ true → w ≡ true
fits_hw a true s true h e = refl
fits_hw true true true false h e = absurd (cc)
fits_hw true true false false h e = absurd (cc)
fits_hw false true s false h e = absurd (cc)
fits_hw a false s w h e = absurd (cc)

not-true : (b : Bool) → not b ≡ true → b ≡ false
not-true true e = absurd (cc)
not-true false e = refl

not_empty : (empty b : Bool) → b ≡ not empty → b ≡ true → empty ≡ false
not_empty true b is e = absurd (cc)
not_empty false b is e = refl

do_validate_sw_hw_pcrs-Fits :
    (p : Platform) (tcb : TcbInfo) (sw hw : Quote)
    → do_validate_sw_hw_pcrs p tcb sw hw ≡ ok tt
    → Fits p sw hw tcb
unfolding do_validate_sw_hw_pcrs
do_validate_sw_hw_pcrs-Fits p tcb sw hw h =
    let (s, sw_run, h1) =
      ok_of_>>= (validate_quote_pcrs p sw.quote_pcr tcb.sw_quote tcb.sw_pcr_id_set) _ h in
    let (w, hw_run, h2) =
      ok_of_>>= (validate_quote_pcrs p hw.quote_pcr tcb.hw_quote tcb.hw_pcr_id_set) _ h1 in
    let has_sw : Bool = not (equal tcb.sw_quote []) in
    let has_hw : Bool = not (equal tcb.hw_quote []) in
    let sw_quoted : Bool = is_some sw.quote_pcr in
    let hw_quoted : Bool = is_some hw.quote_pcr in
    let (golden, quoted) =
      guards-ok (not (has_sw && not s || has_hw && not w || has_sw && has_hw && (not s && not w)))
        (sw_quoted && hw_quoted && (s && w)
          || sw_quoted && not hw_quoted && s
          || hw_quoted && not sw_quoted && w)
        pcr_validation_failed tcb_not_valid h2 in
    let (s_is, s_matches) =
      validate_quote_pcrs-Matches p sw.quote_pcr tcb.sw_quote tcb.sw_pcr_id_set sw_run in
    let (w_is, w_matches) =
      validate_quote_pcrs-Matches p hw.quote_pcr tcb.hw_quote tcb.hw_pcr_id_set hw_run in
    (
      fits_any sw_quoted hw_quoted s w quoted,
      when_true sw_quoted (λ e. not_empty _ s s_is (fits_sw sw_quoted hw_quoted s w quoted e)),
      when_true hw_quoted (λ e. not_empty _ w w_is (fits_hw sw_quoted hw_quoted s w quoted e)),
      when_true has_sw (λ e. s_matches (not-true _ e)),
      when_true has_hw (λ e. w_matches (not-true _ e)),
    )

next_tcb-ok : (r rest : Result ⊤) → next_tcb r rest ≡ ok tt → (r ≡ ok tt) ⊎ (rest ≡ ok tt)
unfolding next_tcb
next_tcb-ok (ok a) rest h = inl refl
next_tcb-ok (err e) rest h = inr h
next_tcb-ok fault rest h = absurd (cc)

-- If the check of the quotes succeeds, one of the license's TCBs can be read and the quotes fit it:
-- there is a quote, each received quote has a golden one, and the code's comparison of the PCRs with
-- every golden one ends in OVSA_OK.
pub do_validate_tpm_quote-Fits :
    (p : Platform) (tcb_list : List Bytes) (sw hw : Quote)
    → do_validate_tpm_quote p tcb_list sw hw ≡ ok tt
    → (passed left : List Bytes) × (tcb_signature : Bytes) × (tcb : TcbInfo) × (tcb_list
        ≡ passed ++ tcb_signature ∷ left)
      × (p.extract_tcb_signature tcb_signature ≡ ok tcb)
      × Fits p sw hw tcb
unfolding do_validate_tpm_quote
do_validate_tpm_quote-Fits p [] sw hw h = absurd (cc)
do_validate_tpm_quote-Fits p (tcb_signature ∷ tcb_list) sw hw h =
    let (tcb, read, found) = ok_of_>>= (p.extract_tcb_signature tcb_signature) _ h in
    elim (next_tcb-ok (do_validate_sw_hw_pcrs p tcb sw hw) (do_validate_tpm_quote p tcb_list sw hw)
      found) [
        | inl fits ↦ (
          [],
          tcb_list,
          tcb_signature,
          tcb,
          refl,
          read,
          do_validate_sw_hw_pcrs-Fits p tcb sw hw fits,
        )
        | inr rest ↦
            let (passed, left, sig, tcb', split, read', fits) =
              do_validate_tpm_quote-Fits p tcb_list sw hw rest in
            (
              tcb_signature ∷ passed,
              left,
              sig,
              tcb',
              ap (λ xs. tcb_signature ∷ xs) split,
              read',
              fits,
            )
      ]
