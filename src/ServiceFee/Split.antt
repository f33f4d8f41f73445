-- ===== src/ServiceFee/Split.antt =====
-- The fee is split off a mint, not added to it (service_fee.rs, `split_off`).
use clutch_treasury.Base.{
  ℕ, ◌+◌, ◌≤◌, ◌<◌, ◌≡◌, ◌⊎◌, inl, inr, refl, sym, true, ◌||◌, not, none, some, List, [], ◌∷◌, ◌++◌,
  arith, Bool-cases, exists_row, find, update, sum_rows, sum_rows-snoc, sum_rows-update, AtMostOne,
  Text, find_holds, ap, subst,
}
use clutch_treasury.Base.Int.{ℤ, pos, pos_part, ◌≤ℤ◌, ◌<ℤ◌, ◌-ℤ◌, leb_ℤ, i64_bound}
use clutch_treasury.Store.{MintIntent, Db}
use clutch_treasury.Intents.{has_id, find_by_id, accepts, for_intent}
use clutch_treasury.ServiceFee.{
  Settings, fee_of, charge, fee_intent, take_fee, split_found, split_off,
}
use clutch_treasury.ServiceFee.Amount.{service_fee_bounds}

-- The CLT that all the intents of the table mint.
abbrev pub total_clt : Db → ℕ
total_clt db = sum_rows (λ _. true) (λ i. i.amount_clt) db.mint_intents

take_fee-total :
    (now : ℕ) (settings : Settings) (i : MintIntent) (fee_id : ℕ) (fee_ref : Text) (fee : ℤ)
    (db : Db) (out : ℤ × Db)
    → AtMostOne (has_id i.id) db.mint_intents
    → find (has_id i.id) db.mint_intents ≡ some i
    → fee ≤ℤ pos i.amount_clt
    → take_fee now settings i fee_id fee_ref fee db ≡ some out
    → total_clt out.1 ≡ total_clt db
unfolding take_fee ◌-ℤ◌
take_fee-total now settings i fee_id fee_ref fee db out one found small e =
    elim (Bool-cases (
      leb_ℤ fee (pos 0)
      || not (accepts row charged)
      || exists_row (for_intent fee_id) db.chain_outbox)) [
        | inl refused ↦ ground (arith, e, refused)
        | inr goes ↦
            let after : some (fee, _) ≡ some out = rw goes at e in
            let same : (charged ++ row ∷ []) ≡ out.1.mint_intents =
              ap (λ o. elim o [ none ↦ [] | some r ↦ r.1.mint_intents ]) after in
            rw (sym same, sum_rows-snoc (λ _. true) (λ x. x.amount_clt) charged row)
              (ground (arith, small, goes, moved))
      ]
  where
    charged : List MintIntent
    charged = update (has_id i.id) (charge fee) db.mint_intents

    row : MintIntent
    row = fee_intent now settings i.id fee_id fee_ref (pos_part fee)

    moved :
        sum_rows (λ _. true) (λ x. x.amount_clt) charged + i.amount_clt
        ≡ sum_rows (λ _. true) (λ x. x.amount_clt) db.mint_intents + (charge fee i).amount_clt
    moved =
        sum_rows-update (has_id i.id) (λ _. true) (charge fee) (λ x. x.amount_clt) db.mint_intents i
          one found

take_fee-fee :
    (now : ℕ) (settings : Settings) (i : MintIntent) (fee_id : ℕ) (fee_ref : Text) (fee : ℤ)
    (db : Db) (out : ℤ × Db)
    → take_fee now settings i fee_id fee_ref fee db ≡ some out
    → fee ≡ out.0
unfolding take_fee
take_fee-fee now settings i fee_id fee_ref fee db out e = ground (arith, e)

-- The two ways in which a split can succeed.
pub split_found-cases :
    (now : ℕ) (settings : Settings) (i : MintIntent) (fee_id : ℕ) (fee_ref : Text) (db : Db)
    (out : ℤ × Db)
    → split_found now settings (some i) fee_id fee_ref db ≡ some out
    → (some (pos 0, db) ≡ some out)
      ⊎ (take_fee now settings i fee_id fee_ref (fee_of settings i) db ≡ some out)
unfolding split_found
split_found-cases now settings i fee_id fee_ref db out e = ground (arith, e)

-- Splitting the fee off an intent leaves the CLT that all the intents together mint as it was,
-- whether a fee is taken or not; the fee is not negative and less than the whole mint.
pub split_off-total :
    (now : ℕ) (settings : Settings) (minimum intent_id fee_id : ℕ) (fee_ref : Text) (db : Db)
    (i : MintIntent) (fee : ℤ) (db' : Db)
    → find_by_id intent_id db ≡ some i
    → AtMostOne (has_id intent_id) db.mint_intents
    → i.amount_clt < i64_bound
    → 1 ≤ i.amount_clt
    → settings.bps ≤ 10000
    → settings.min_clt ≡ pos minimum
    → split_off now settings intent_id fee_id fee_ref db ≡ some (fee, db')
    → (total_clt db' ≡ total_clt db) × (pos 0 ≤ℤ fee) × (fee <ℤ pos i.amount_clt)
unfolding split_off split_found find_by_id
split_off-total now settings minimum intent_id fee_id fee_ref db i fee db' found one h k b m e =
    elim (split_found-cases now settings i fee_id fee_ref db (fee, db') (rw found at e)) [
      | inl none_taken ↦
          let zero_fee : pos 0 ≡ fee = ap (λ o. elim o [ none ↦ fee | some r ↦ r.0 ]) none_taken in
          let same : db ≡ db' = ap (λ o. elim o [ none ↦ db' | some r ↦ r.1 ]) none_taken in
          rw (← zero_fee, ← same) (refl, omega arith, omega (arith, k))
      | inr taken ↦
          let is_fee : fee_of settings i ≡ fee =
            take_fee-fee now settings i fee_id fee_ref (fee_of settings i) db (fee, db') taken in
          let small : fee <ℤ pos i.amount_clt = rw (← is_fee) (bounds.1 (omega (arith, k))) in
          let own : i.id ≡ intent_id = ground (arith, find_holds _ db.mint_intents i found) in
          (
            take_fee-total now settings i fee_id fee_ref (fee_of settings i) db (fee, db')
                (subst (λ k. AtMostOne (has_id k) db.mint_intents) (sym own) one)
                (subst (λ k. find (has_id k) db.mint_intents ≡ some i) (sym own) found)
                (rw is_fee (omega (arith, small))) taken,
            rw (← is_fee) bounds.0,
            small,
          )
    ]
  where
    bounds :
        (pos 0 ≤ℤ fee_of settings i)
        × (pos 0 <ℤ pos i.amount_clt → fee_of settings i <ℤ pos i.amount_clt)
    bounds =
        let all = service_fee_bounds (pos i.amount_clt) settings.bps minimum h b in
        rw m (all.0, all.1)
