-- ===== src/Pcr/Placed.antt =====
-- Which digests a success of the comparison of PCRs has read.
use security_addon.Base.{
  ℕ, zero, suc, ◌+◌, ◌<◌, min, ◌≡◌, refl, ap, ◌∙◌, Bool, true, not, ◌||◌, List, [], ◌∷◌, arith, ltb,
}
use security_addon.Base.Int.{ℤ}
use security_addon.Pcr.{
  Digests, Pcrs, Selection, Selections, Tpm, Scan, elem_at, is_selected, bank_loop, banks_loop,
  start, do_verify_pcr_ids,
}
use security_addon.Status.{pcr_count_not_valid, ok-injective, guard-ok, ok, guard, ok_of_>>=}
use security_addon.Pcr.Row.{NeverDiffers, before, bank_ids, common, common_banks}
use security_addon.Pcr.Scanned.{ComparedAt, Inv, bank_loop-Inv}

module _ (t : Tpm) (pcr_id_set : ℤ) (pcr_select : Selections) (pcrs : Pcrs)
    (golden_pcr_select : Selections) (golden_pcrs : Pcrs) (never : NeverDiffers t) where
  -- A PCR of the set that both sides select in the same bank, and whose digests stand, on both sides,
  -- where the row of the received values has as many digests before it as there are PCRs before it that
  -- both sides select.
  abbrev pub SomePlaced : Type 0
  SomePlaced =
      (bank : ℕ) × (bank < min pcr_select.count golden_pcr_select.count)
      × (sel golden_sel : Selection) × (elem_at pcr_select.pcr_selections bank ≡ ok sel)
      × (elem_at golden_pcr_select.pcr_selections bank ≡ ok golden_sel)
      × (pcr_id : ℕ) × (is_selected sel pcr_id ≡ ok true)
      × (is_selected golden_sel pcr_id ≡ ok true)
      × ComparedAt t never pcr_id_set pcrs golden_pcrs pcr_id (
          common_banks pcr_select.pcr_selections golden_pcr_select.pcr_selections bank
          + common sel golden_sel pcr_id)

  abbrev passed : ℕ → ℕ
  passed i = common_banks pcr_select.pcr_selections golden_pcr_select.pcr_selections i

  banks_loop-Inv :
      (left i : ℕ) (s : Scan) {s' : Scan}
      → i + left ≡ min pcr_select.count golden_pcr_select.count
      → Inv t never pcr_id_set pcrs golden_pcrs SomePlaced s (passed i)
      → banks_loop t pcr_id_set pcrs golden_pcrs pcr_select golden_pcr_select left i s ≡ ok s'
      → s'.is_valid_pcr ≡ true
      → SomePlaced
  unfolding banks_loop
  banks_loop-Inv zero i s bound inv h valid =
      inv.1 (ap (λ (w : Scan). w.is_valid_pcr) (ok-injective h) ∙ valid)
  banks_loop-Inv (suc left) i s bound inv h valid =
      let (sel, at_i, h1) = ok_of_>>= (elem_at pcr_select.pcr_selections i) _ h in
      let (golden_sel, golden_i, h2) =
        ok_of_>>= (elem_at golden_pcr_select.pcr_selections i) _ h1 in
      let ids : ℕ = bank_ids sel golden_sel in
      let (s1, run, h3) =
        ok_of_>>= (bank_loop t pcr_id_set pcrs golden_pcrs sel golden_sel ids 0 s) _ h2 in
      let begin : passed i + common sel golden_sel 0 ≡ passed i = omega arith in
      let inv1 =
        bank_loop-Inv t never pcr_id_set pcrs golden_pcrs SomePlaced sel golden_sel ids 0 (passed i)
          s
          (λ pcr_id selected golden_selected compared. (
            i,
            omega arith,
            sel,
            golden_sel,
            at_i,
            golden_i,
            pcr_id,
            selected,
            golden_selected,
            compared,
          ))
          (rw begin inv) run in
      let whole : passed i + common sel golden_sel (0 + ids) ≡ passed (suc i) =
        (let zero_first : 0 + ids ≡ ids = omega arith in rw (zero_first, at_i, golden_i) refl) in
      banks_loop-Inv left (suc i) s1 (omega arith) (rw whole at inv1) h3 valid

  -- If the PCRs are found valid, there is a PCR of the set that both sides select in the same bank, and
  -- whose digests, each within its bound, stand on both sides where the received values have as many
  -- digests before as there are PCRs before it that both sides select. Nothing in common is no
  -- success. `memcmp_s` finds no difference of memory from itself.
  pub do_verify_pcr_ids-SomePlaced :
      do_verify_pcr_ids t pcr_select pcrs golden_pcr_select golden_pcrs pcr_id_set ≡ ok tt
      → SomePlaced
  unfolding do_verify_pcr_ids
  do_verify_pcr_ids-SomePlaced h =
      let within : Bool =
        not (ltb t.num_pcr_banks pcr_select.count || ltb t.num_pcr_banks golden_pcr_select.count) in
      let (_, _, h1) = ok_of_>>= (guard within pcr_count_not_valid) _ h in
      let (s, run, valid) =
        ok_of_>>=
          (banks_loop t pcr_id_set pcrs golden_pcrs pcr_select golden_pcr_select
            (min pcr_select.count golden_pcr_select.count) 0 start)
          _ h1 in
      banks_loop-Inv (min pcr_select.count golden_pcr_select.count) 0 start (omega arith)
        ((begin pcrs.pcr_values, λ values here. omega arith), λ e. absurd (cc)) run
        (guard-ok _ _ valid)
    where
      begin : (vs : List Digests) → 0 ≡ before vs 0 + 0
      begin [] = refl
      begin (v ∷ vs) = refl
