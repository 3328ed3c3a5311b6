-- ===== src/Pcr/Scanned.antt =====
-- What a pass over the PCRs of a bank reads: the digests in the order of the PCRs that both sides
-- select.
use security_addon.Base.{
  ℕ, zero, suc, ◌+◌, ◌/◌, ◌≤◌, ◌<◌, ◌≡◌, refl, sym, ap, ◌∙◌, ◌⊎◌, inl, inr, Bool, true, false, not,
  ◌&&◌, Option, none, some, arith, ltb, if◌then◌else◌, Bool-cases,
}
use security_addon.Base.Int.{ℤ}
use security_addon.Memory.{zeros}
use security_addon.Pcr.{
  Digest, Digests, Pcrs, Selection, Tpm, Scan, elem_at, texts_agree, in_set, is_zero, is_selected,
  advance, compare_digests, check_selected, check_pcr, bank_loop,
}
use security_addon.Pcr.Blank.{text_of-zeros}
use security_addon.Status.{
  ◌>>=◌, ok-injective, pcr_id_not_valid, guard-ok, ◌>>◌, pcr_digest_not_valid, Result, ok, err,
  fault, guard, ok_of_>>=,
}
use security_addon.Pcr.Row.{NeverDiffers, width, before, before-suc, is_yes, both, common}

module _ (t : Tpm) (never : NeverDiffers t) (pcr_id_set : ℤ) (pcrs golden_pcrs : Pcrs) where
  -- The scan stands at the k-th digest of the row of the received values.
  abbrev pub At : Scan → ℕ → Type 0
  At s k =
      (k ≡ before pcrs.pcr_values s.vi + s.di)
      × ((values : Digests) → elem_at pcrs.pcr_values s.vi ≡ ok values → s.di < width values)

  advance-At :
      (s : Scan) (k : ℕ) (values : Digests)
      → elem_at pcrs.pcr_values s.vi ≡ ok values
      → At s k
      → At (advance t pcr_id_set values.count s) (k + 1)
  advance-At s k values here (is, fits) =
      let inside : s.di < width values = fits values here in
      elim (Bool-cases (ltb (s.di + 1) values.count)) [
        | inl e ↦ rw e (
          omega (arith, is),
          λ values' here'.
              let same : values ≡ values' = ok-injective (sym here ∙ here') in
              rw (ap width same) at (let less : s.di + 1 < width values = ground arith in less),
        )
        | inr e ↦ rw e (
          (let whole : s.di + 1 ≡ width values = ground arith in
              let step : before pcrs.pcr_values (s.vi + 1)
                  ≡ before pcrs.pcr_values s.vi + width values =
                (let next : s.vi + 1 ≡ suc s.vi = omega arith in
                  rw next (before-suc pcrs.pcr_values s.vi here)) in
              omega (arith, is, whole, step)),
          λ values' here'. omega arith,
        )
      ]

  -- A PCR of the set whose digests stand at the k-th place of the row, on both sides.
  abbrev pub ComparedAt : ℕ → ℕ → Type 0
  ComparedAt pcr_id k =
      (in_set pcr_id_set pcr_id ≡ true)
      × (vi di : ℕ) × (k ≡ before pcrs.pcr_values vi + di)
      × (values golden_values : Digests) × (b golden_b : Digest) × (elem_at pcrs.pcr_values vi
          ≡ ok values)
      × (di < width values)
      × (elem_at values.digests di ≡ ok b)
      × (elem_at golden_pcrs.pcr_values vi ≡ ok golden_values)
      × (elem_at golden_values.digests di ≡ ok golden_b)
      × (b.size ≤ t.sizeof_tpmu_ha)
      × (golden_b.size ≤ t.sizeof_tpmu_ha)

  -- The texts of two digests never differ, since both are empty.
  compare_digests-Sized :
      (pcr_id : ℕ) (b golden_b : Digest) (compared : Option Bool)
      → compare_digests t pcr_id_set pcr_id b golden_b ≡ ok compared
      → (b.size ≤ t.sizeof_tpmu_ha)
        × (golden_b.size ≤ t.sizeof_tpmu_ha)
        × ((compared ≡ none) ⊎ ((compared ≡ some true) × (in_set pcr_id_set pcr_id ≡ true)))
  unfolding compare_digests
  compare_digests-Sized pcr_id b golden_b compared h =
      let within : (size : ℕ) → not (ltb t.sizeof_tpmu_ha size) ≡ true → size ≤ t.sizeof_tpmu_ha =
        λ size e. ground arith in
      let (_, sized, h1) =
        ok_of_>>= (guard _ pcr_digest_not_valid >> guard _ pcr_digest_not_valid) _ h in
      let (_, small, golden_small) = ok_of_>>= (guard _ pcr_digest_not_valid) _ sized in
      (
        within b.size (guard-ok _ _ small),
        within golden_b.size (guard-ok _ _ golden_small),
        elim (Bool-cases (in_set pcr_id_set pcr_id)) [
          | inr outside ↦ inl (sym (ok-injective (rw outside at h1)))
          | inl inside ↦ inr (
            agrees _ compared
                (λ diff e.
                  never (zeros (suc t.sizeof_tpmu_ha)) golden_b.size b.size diff
                    (rw (text_of-zeros t golden_b, text_of-zeros t b) at e))
                (rw inside at h1),
            inside,
          )
        ],
      )
    where
      agrees :
          (found : Option ℤ) (compared : Option Bool)
          → ((diff : ℤ) → found ≡ some diff → is_zero diff ≡ true)
          → texts_agree found ≡ ok compared
          → compared ≡ some true
      agrees none compared zero_diff e = absurd (cc)
      agrees (some diff) compared zero_diff e = sym (ok-injective e) ∙ ap some (zero_diff diff refl)

  module _ (P : Type 0) where
    -- The scan stands at the k-th place, and `is_valid_PCR` is only set where P holds.
    abbrev pub Inv : Scan → ℕ → Type 0
    Inv s k = At s k × (s.is_valid_pcr ≡ true → P)

    advance-is_valid : (n : ℕ) (s : Scan) → (advance t pcr_id_set n s).is_valid_pcr ≡ s.is_valid_pcr
    advance-is_valid n s = ground arith

    check_selected-Inv :
        (pcr_id : ℕ) (s : Scan) (k : ℕ) {out : Bool × Scan}
        → (ComparedAt pcr_id k → P)
        → Inv s k
        → check_selected t pcr_id_set pcrs golden_pcrs pcr_id s ≡ ok out
        → (out.0 ≡ true) × Inv out.1 (k + 1)
    unfolding check_selected
    check_selected-Inv pcr_id s k {out} found (at_k, sound) h =
        let (values, at_vi, h1) = ok_of_>>= (elem_at pcrs.pcr_values s.vi) _ h in
        let (b, at_di, h2) = ok_of_>>= (elem_at values.digests s.di) _ h1 in
        let (golden_values, golden_vi, h3) = ok_of_>>= (elem_at golden_pcrs.pcr_values s.vi) _ h2 in
        let (golden_b, golden_di, h4) = ok_of_>>= (elem_at golden_values.digests s.di) _ h3 in
        let (compared, run, done) =
          ok_of_>>= (compare_digests t pcr_id_set pcr_id b golden_b) _ h4 in
        let (sized, golden_sized, outcome) = compare_digests-Sized pcr_id b golden_b compared run in
        elim outcome [
          | inl is_none ↦
              let e = rw is_none at done in
              let is : (true, advance t pcr_id_set values.count s) ≡ out = ok-injective e in
              (
                sym (ap (λ o. o.0) is),
                (
                  rw (ap (λ o. o.1) is) at (advance-At s k values at_vi at_k),
                  λ valid. sound (
                      sym (advance-is_valid values.count s)
                      ∙ ap (λ o. o.1.is_valid_pcr) is
                      ∙ valid),
                ),
              )
          | inr (is_true, inside) ↦
              let e = rw is_true at done in
              let s1 : Scan = record s { is_valid_pcr = true } in
              let is : (true, advance t pcr_id_set values.count s1) ≡ out = ok-injective e in
              (
                sym (ap (λ o. o.0) is),
                (
                  rw (ap (λ o. o.1) is) at (advance-At s1 k values at_vi at_k),
                  λ valid. found (
                    inside,
                    s.vi,
                    s.di,
                    at_k.0,
                    values,
                    golden_values,
                    b,
                    golden_b,
                    at_vi,
                    at_k.1 values at_vi,
                    at_di,
                    golden_vi,
                    golden_di,
                    sized,
                    golden_sized,
                  ),
                ),
              )
        ]

    if_yes :
        (m : Result Bool) (branch : Result (Bool × Scan)) (s : Scan) {out : Bool × Scan}
        → (m >>= λ selected. if selected then branch else ok (true, s)) ≡ ok out
        → ((m ≡ ok true) × (branch ≡ ok out)) ⊎ ((is_yes m ≡ false) × ((true, s) ≡ out))
    if_yes fault branch s h = absurd (cc)
    if_yes (err e) branch s h = absurd (cc)
    if_yes (ok true) branch s h = inl (refl, h)
    if_yes (ok false) branch s h = inr (refl, ok-injective h)

    not_both :
        (s g : Selection) (n k : ℕ)
        → (is_yes (is_selected s n) && is_yes (is_selected g n)) ≡ false
        → k + both s g n ≡ k
    not_both s g n k e = rw e (omega arith)

    check_pcr-Inv :
        (sel golden_sel : Selection) (pcr_id : ℕ) (s : Scan) (k : ℕ) {out : Bool × Scan}
        → (is_selected sel pcr_id ≡ ok true
            → is_selected golden_sel pcr_id ≡ ok true
            → ComparedAt pcr_id k
            → P)
        → Inv s k
        → check_pcr t pcr_id_set pcrs golden_pcrs sel golden_sel pcr_id s ≡ ok out
        → (out.0 ≡ true) × Inv out.1 (k + both sel golden_sel pcr_id)
    unfolding check_pcr
    check_pcr-Inv sel golden_sel pcr_id s k {out} found inv h =
        let (_, _, h1) =
          ok_of_>>= (guard (ltb (pcr_id / 8) t.pcr_select_max) pcr_id_not_valid) _ h in
        elim (if_yes (is_selected sel pcr_id) _ s h1) [
          | inr (unset, is) ↦
              let same = not_both sel golden_sel pcr_id k (rw unset) in
              (sym (ap (λ o. o.0) is), rw same (rw (ap (λ o. o.1) is) at inv))
          | inl (selected, h2) ↦ elim (if_yes (is_selected golden_sel pcr_id) _ s h2) [
            | inr (unset, is) ↦
                let same = not_both sel golden_sel pcr_id k (rw (selected, unset)) in
                (sym (ap (λ o. o.0) is), rw same (rw (ap (λ o. o.1) is) at inv))
            | inl (golden_selected, h3) ↦
                let one : both sel golden_sel pcr_id ≡ 1 = rw (selected, golden_selected) in
                rw one (check_selected-Inv pcr_id s k (found selected golden_selected) inv h3)
          ]
        ]

    pub bank_loop-Inv :
        (sel golden_sel : Selection) (left pcr_id base : ℕ) (s : Scan) {s' : Scan}
        → ((id : ℕ)
            → is_selected sel id ≡ ok true
            → is_selected golden_sel id ≡ ok true
            → ComparedAt id (base + common sel golden_sel id)
            → P)
        → Inv s (base + common sel golden_sel pcr_id)
        → bank_loop t pcr_id_set pcrs golden_pcrs sel golden_sel left pcr_id s ≡ ok s'
        → Inv s' (base + common sel golden_sel (pcr_id + left))
    unfolding bank_loop
    bank_loop-Inv sel golden_sel zero pcr_id base s found inv h =
        let last : pcr_id + 0 ≡ pcr_id = omega arith in rw last (rw (ok-injective h) at inv)
    bank_loop-Inv sel golden_sel (suc left) pcr_id base s found inv h =
        let ((more, s1), checked, h1) =
          ok_of_>>= (check_pcr t pcr_id_set pcrs golden_pcrs sel golden_sel pcr_id s) _ h in
        let (goes_on, inv1) =
          check_pcr-Inv sel golden_sel pcr_id s (base + common sel golden_sel pcr_id) (found pcr_id)
            inv checked in
        let next : base + common sel golden_sel pcr_id + both sel golden_sel pcr_id
            ≡ base + common sel golden_sel (suc pcr_id) =
          omega arith in
        let last : pcr_id + suc left ≡ suc pcr_id + left = omega arith in
        rw last (
          bank_loop-Inv sel golden_sel left (suc pcr_id) base s1 found (rw next at inv1)
            (rw goes_on at h1))
