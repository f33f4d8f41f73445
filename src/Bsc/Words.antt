-- ===== src/Bsc/Words.antt =====
-- Addresses as 32-byte words (crates/bsc/src/lib.rs, `address_word` and `word_address`).
use clutch_treasury.Base.{
  ℕ, zero, suc, ◌≡◌, inl, inr, refl, sym, ap, ◌∙◌, subst, true, ◌&&◌, ◌==◌, none, some, ◌++◌, arith,
  Bool-cases, Option-cases, length, length-append, Text, to_ascii_lowercase,
}
use clutch_treasury.Bsc.{
  normalize_address, strip_prefix, all_hex, zero_x, zeros, pad_left, drop_two, address_word,
  word_address, drop, starts_with_zeros,
}
use clutch_treasury.Bsc.Units.{normalize_address_twice, length-lower}

length-zeros : (n : ℕ) → length (zeros n) ≡ n
unfolding zeros
length-zeros zero = refl
length-zeros (suc n) = ap suc (length-zeros n)

drop-zeros : (n : ℕ) (t : Text) → drop n (zeros n ++ t) ≡ t
unfolding zeros drop
drop-zeros zero t = refl
drop-zeros (suc n) t = drop-zeros n t

starts-zeros : (n : ℕ) (t : Text) → starts_with_zeros n (zeros n ++ t) ≡ true
unfolding zeros starts_with_zeros
starts-zeros zero t = refl
starts-zeros (suc n) t = starts-zeros n t

-- A normal form is `0x` and forty digits.
normal_form :
    (a b : Text) → normalize_address a ≡ some b → (t : Text) × (b ≡ zero_x ++ t) × (length t ≡ 40)
unfolding normalize_address
normal_form a b h = elim (Option-cases (strip_prefix a)) [
  | inl bare ↦ let clash : none ≡ some b = rw bare at h in cc
  | inr (t, rest) ↦ elim (Bool-cases (length t == 40 && all_hex t)) [
    | inl good ↦
        let h' : some (zero_x ++ to_ascii_lowercase t) ≡ some b = rw (rest, good) at h in
        (to_ascii_lowercase t, cc, length-lower t ∙ ground (arith, good))
    | inr bad ↦ let clash : none ≡ some b = rw (rest, bad) at h in cc
  ]
]

word_address-padded :
    (t : Text)
    → length t ≡ 40
    → word_address (zero_x ++ pad_left 64 t) ≡ normalize_address (zero_x ++ t)
unfolding word_address
word_address-padded t h =
    let whole : length (zeros 24 ++ t) ≡ 64 =
      omega (arith, length-append (zeros 24) t, length-zeros 24, h) in
    rw (h, whole, starts-zeros 24 t, drop-zeros 24 t, h) refl

-- An address that is written as a 32-byte word is read back as its own normal form, and every
-- address that has a normal form has a word.
pub word_address-address_word :
    (a b : Text)
    → normalize_address a ≡ some b
    → (w : Text) × (address_word a ≡ some w) × (word_address w ≡ some b)
unfolding address_word
word_address-address_word a b h =
    let form = normal_form a b h in
    let same : normalize_address b ≡ some b = normalize_address_twice a b h in
    (
      zero_x ++ pad_left 64 (drop_two b),
      rw h refl,
      subst (λ x. word_address (zero_x ++ pad_left 64 (drop_two x)) ≡ some x) (sym form.1)
          (word_address-padded form.0 form.2
            ∙ subst (λ x. normalize_address x ≡ some x) form.1 same),
    )
