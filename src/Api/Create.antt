-- ===== src/Api/Create.antt =====
-- Creating an intent is idempotent, and a deposit's intent carries its evidence (api.rs,
-- `create_mint_intent_handler`).
use clutch_treasury.Base.{
  find-snoc, ℕ, ◌≡◌, inl, inr, refl, sym, ap, ◌∙◌, subst, true, Option, none, some, [], ◌∷◌, ◌++◌,
  Bool-cases, find, Text, text_eq_refl,
}
use clutch_treasury.Base.Int.{pos, leb_ℤ}
use clutch_treasury.Store.{MintIntent, Network, tron, bsc, Db}
use clutch_treasury.Intents.{
  ok, NewMint, create_mint_intent_on, find_by_client_ref, accepts, new_row, same_text,
}
use clutch_treasury.Api.{
  initiator, ApiConfig, CreateMintIntentBody, Response, existing, created, Fresh,
  create_mint_intent, create_by_ref, create_deposit, insert_new, new_mint, answer, deposit_ok,
  actor_name,
}

-- A row that was created stands at the end of the table, with the reference of the request.
abbrev Inserted : Option Text → Db → MintIntent → Db → Type 0
Inserted client_ref db i db' =
    (db'.mint_intents ≡ db.mint_intents ++ i ∷ []) × (i.client_ref ≡ client_ref)

abbrev row_of : Response → Option MintIntent
row_of (created i) = some i
row_of _ = none

created_row :
    (i j : MintIntent) (db db' : Db) → answer (ok i, db) ≡ (created j, db') → (i ≡ j) × (db ≡ db')
created_row i j db db' e =
    let rows : some i ≡ some j = ap (λ r. row_of r.0) e in (cc, ap (λ r. r.1) e)

answer-Inserted :
    (now : ℕ) (fresh : Fresh) (n : NewMint) (db db' : Db) (i : MintIntent)
    → answer (create_mint_intent_on now fresh.id fresh.credit_ref n db) ≡ (created i, db')
    → Inserted n.client_ref db i db'
unfolding create_mint_intent_on
answer-Inserted now fresh n db db' i e = elim (Bool-cases (leb_ℤ n.amount_clt (pos 0))) [
  | inl bad ↦ let clash : none ≡ some i = ap (λ r. row_of r.0) (rw bad at e) in cc
  | inr good ↦
      elim (Bool-cases (accepts (new_row now fresh.id fresh.credit_ref n) db.mint_intents)) [
        | inl takes ↦
            let same =
              created_row (new_row now fresh.id fresh.credit_ref n) i _ db'
                (rw (good, takes) at e) in
            (
              sym (ap (λ d. d.mint_intents) same.1) ∙ ap (λ x. db.mint_intents ++ x ∷ []) same.0,
              sym (ap (λ (x : MintIntent). x.client_ref) same.0),
            )
        | inr refuses ↦
            let clash : none ≡ some i = ap (λ r. row_of r.0) (rw (good, refuses) at e) in cc
      ]
]

insert_new-Inserted :
    (now : ℕ) (fresh : Fresh) (body : CreateMintIntentBody) (network : Network) (db db' : Db)
    (i : MintIntent)
    → insert_new now fresh body network db ≡ (created i, db')
    → Inserted body.client_ref db i db'
unfolding insert_new new_mint
insert_new-Inserted now fresh body tron db db' i e =
    answer-Inserted now fresh (new_mint actor_name body tron) db db' i e
insert_new-Inserted now fresh body bsc db db' i e =
    answer-Inserted now fresh (new_mint actor_name body bsc) db db' i e

create_deposit-created :
    (config : ApiConfig) (address_of : Text → Option Text) (now : ℕ) (fresh : Fresh)
    (body : CreateMintIntentBody) (o : Option MintIntent) (db db' : Db) (i : MintIntent)
    → create_deposit config address_of now fresh body o db ≡ (created i, db')
    → (o ≡ none) × (deposit_ok config address_of body ≡ true) × Inserted body.client_ref db i db'
unfolding create_deposit
create_deposit-created config address_of now fresh body (some j) db db' i e =
    let clash : none ≡ some i = ap (λ r. row_of r.0) e in cc
create_deposit-created config address_of now fresh body none db db' i e =
    elim (Bool-cases (deposit_ok config address_of body)) [
      | inl fine ↦ (refl, fine, insert_new-Inserted now fresh body _ db db' i (rw fine at e))
      | inr bad ↦ let clash : none ≡ some i = ap (λ r. row_of r.0) (rw bad at e) in cc
    ]

find_by_client_ref-snoc :
    (r : Text) (db db' : Db) (i : MintIntent)
    → find_by_client_ref r db ≡ none
    → db'.mint_intents ≡ db.mint_intents ++ i ∷ []
    → i.client_ref ≡ some r
    → find_by_client_ref r db' ≡ some i
unfolding find_by_client_ref
find_by_client_ref-snoc r db db' i fresh rows own =
    ap (find (λ x. same_text x.client_ref (some r))) rows
    ∙ find-snoc (λ x. same_text x.client_ref (some r)) db.mint_intents i fresh
        (ap (λ o. same_text o (some r)) own ∙ text_eq_refl r)

-- The intent that a request with a `client_ref` has created is found under it.
pub create_mint_intent-found :
    (config : ApiConfig) (address_of : Text → Option Text) (now : ℕ) (fresh : Fresh)
    (body : CreateMintIntentBody) (r : Text) (db db' : Db) (i : MintIntent)
    → body.client_ref ≡ some r
    → create_mint_intent config address_of now fresh (some initiator) body db ≡ (created i, db')
    → find_by_client_ref r db' ≡ some i
unfolding create_mint_intent create_by_ref
create_mint_intent-found config address_of now fresh body r db db' i e done =
    let first : create_by_ref config address_of now fresh body (some r) db ≡ (created i, db') =
      subst (λ o. create_by_ref config address_of now fresh body o db ≡ (created i, db')) e done in
    let made =
      create_deposit-created config address_of now fresh body (find_by_client_ref r db) db db' i
        first in
    find_by_client_ref-snoc r db db' i made.0 made.2.0 (made.2.1 ∙ e)

-- A request with a reference that an intent has is answered with that intent and changes nothing.
pub create_mint_intent-existing :
    (config : ApiConfig) (address_of : Text → Option Text) (now : ℕ) (fresh : Fresh)
    (body : CreateMintIntentBody) (r : Text) (db : Db) (i : MintIntent)
    → body.client_ref ≡ some r
    → find_by_client_ref r db ≡ some i
    → create_mint_intent config address_of now fresh (some initiator) body db ≡ (existing i, db)
unfolding create_mint_intent create_by_ref create_deposit
create_mint_intent-existing config address_of now fresh body r db i e found =
    subst (λ o. create_by_ref config address_of now fresh body o db ≡ (existing i, db)) (sym e)
      (ap (λ o. create_deposit config address_of now fresh body o db) found)

-- Creating a deposit's intent is idempotent: once a request with a `client_ref` has created an
-- intent, a request with the same reference, at any later time, with any other fields and under
-- any settings, is answered with that intent and changes nothing.
create_mint_intent_twice :
    (config config' : ApiConfig) (address_of address_of' : Text → Option Text) (now later : ℕ)
    (fresh fresh' : Fresh) (body body' : CreateMintIntentBody) (r : Text) (db db' : Db)
    (i : MintIntent)
    → body.client_ref ≡ some r
    → body'.client_ref ≡ some r
    → create_mint_intent config address_of now fresh (some initiator) body db ≡ (created i, db')
    → create_mint_intent config' address_of' later fresh' (some initiator) body' db'
      ≡ (existing i, db')
create_mint_intent_twice config config' address_of address_of' now later fresh fresh' body body' r
      db db' i e e' done =
    create_mint_intent-existing config' address_of' later fresh' body' r db' i e'
      (create_mint_intent-found config address_of now fresh body r db db' i e done)
