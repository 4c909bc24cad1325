-- ===== src/Dict/Order.antt =====
-- Dictionaries that hold the same entries in another order of iteration.
use nodemesh.Base.{
  ◌≡◌, refl, sym, ap, ◌∙◌, subst, inl, inr, [], ◌∷◌, Option, none, some, arith, Option-cases,
  unwrap_or,
}
use nodemesh.Text.{Text, text_eq_iff, text_eq_refl, text_eq-cases}
use nodemesh.Dict.{
  Dict, lookup, insert, remove, Distinct, lookup-Lacks, lookup-insert, lookup-remove_self,
  lookup-remove_ne, insert-Distinct, remove-Distinct,
}

-- Both have every key at most once, and the same value under it.
pub record Agree {ℓ} {V : Type ℓ} (m m' : Dict V) : Type ℓ where
  pub distinct : Distinct m
  pub other_distinct : Distinct m'
  pub same : (k : Text) → lookup k m' ≡ lookup k m

module _ {ℓ} {V : Type ℓ} where
  pub Agree-refl : {m : Dict V} → Distinct m → Agree m m
  Agree-refl d = record { distinct = d; other_distinct = d; same = λ k. refl }

  pub Agree-trans : {m m' n : Dict V} → Agree m m' → Agree m' n → Agree m n
  Agree-trans h k = record {
    distinct = h.distinct;
    other_distinct = k.other_distinct;
    same = λ j. k.same j ∙ h.same j;
  }

  pub insert-Agree :
      (k : Text) (v : V) {m m' : Dict V} → Agree m m' → Agree (insert k v m) (insert k v m')
  insert-Agree k v {m} {m'} h = record {
    distinct = insert-Distinct k v m h.distinct;
    other_distinct = insert-Distinct k v m' h.other_distinct;
    same = λ j. ground (arith, lookup-insert k j v m, lookup-insert k j v m', h.same j);
  }

  pub remove-Agree : (k : Text) {m m' : Dict V} → Agree m m' → Agree (remove k m) (remove k m')
  remove-Agree k {m} {m'} h = record {
    distinct = remove-Distinct k m h.distinct;
    other_distinct = remove-Distinct k m' h.other_distinct;
    same = λ j. elim (text_eq-cases k j) [
      | inl e ↦
          subst (λ x. lookup x (remove k m') ≡ lookup x (remove k m)) e
            (lookup-remove_self k m' h.other_distinct ∙ sym (lookup-remove_self k m h.distinct))
      | inr e ↦
          lookup-remove_ne k j m' (λ p. absurd (ground (arith, text_eq_iff k j)))
          ∙ h.same j
          ∙ sym (lookup-remove_ne k j m (λ p. absurd (ground (arith, text_eq_iff k j))))
    ];
  }

module _ {ℓ κ} {V : Type ℓ} {B : Type κ} (pick : V → Option B) where
  -- A search that takes the first value that is picked.
  unfoldable pub find_first : Dict V → Option B
  find_first [] = none
  find_first ((k, v) ∷ m) = elim (pick v) [ none ↦ find_first m | some b ↦ some b ]

  -- What is found stands under a key.
  pub find_first-lookup :
      (m : Dict V) {b : B}
      → Distinct m
      → find_first m ≡ some b
      → (k : Text) × (v : V) × (lookup k m ≡ some v) × (pick v ≡ some b)
  unfolding find_first lookup
  find_first-lookup [] d h = absurd (ground (arith, h))
  find_first-lookup ((k, v) ∷ m) {b} d h = elim (Option-cases (pick v)) [
    | inr (c, e) ↦ (k, v, rw (text_eq_refl k) refl, e ∙ (rw (e, find_first) at h))
    | inl e ↦
        let (j, w, l, p) = find_first-lookup m d.1 (rw (e, find_first) at h) in
        (j, w, later j w l, p)
  ]
    where
      later : (j : Text) (w : V) → lookup j m ≡ some w → lookup j ((k, v) ∷ m) ≡ some w
      later j w l = elim (text_eq-cases k j) [
        | inl q ↦
            absurd
              (ground (arith, lookup-Lacks k m d.0, subst (λ x. lookup x m ≡ some w) (sym q) l))
        | inr q ↦ rw q l
      ]

  -- Where some value is picked, the search finds one.
  pub find_first-some :
      (m : Dict V) (k : Text) {v : V} {b : B}
      → lookup k m ≡ some v
      → pick v ≡ some b
      → (c : B) × (find_first m ≡ some c)
  unfolding find_first lookup
  find_first-some [] k l p = absurd (ground (arith, l))
  find_first-some ((j, w) ∷ m) k {v} {b} l p = elim (Option-cases (pick w)) [
    | inr (c, e) ↦ (c, rw (e, find_first) refl)
    | inl e ↦ elim (text_eq-cases j k) [
      | inl q ↦
          let same : w ≡ v = ground (arith, text_eq_iff j k, l) in
          absurd (ground (arith, e, p, ap pick same))
      | inr q ↦ let (c, f) = find_first-some m k (rw q at l) p in (c, rw (e, find_first) f)
    ]
  ]

  -- Where only one key can have a picked value, the order of iteration does not matter to the search.
  pub find_first-Agree :
      {m m' : Dict V}
      → Agree m m'
      → ((k j : Text) (v w : V) (b c : B)
          → lookup k m ≡ some v
          → pick v ≡ some b
          → lookup j m ≡ some w
          → pick w ≡ some c
          → k ≡ j)
      → find_first m' ≡ find_first m
  find_first-Agree {m} {m'} h unique = elim (Option-cases (find_first m)) [
    | inl e ↦ elim (Option-cases (find_first m')) [
      | inl e' ↦ e' ∙ sym e
      | inr (c, e') ↦
          let (k, v, l, p) = find_first-lookup m' h.other_distinct e' in
          let (b, f) = find_first-some m k (sym (h.same k) ∙ l) p in absurd (ground (arith, e, f))
    ]
    | inr (b, e) ↦
        let (k, v, l, p) = find_first-lookup m h.distinct e in
        let (c, e') = find_first-some m' k (h.same k ∙ l) p in
        let (j, w, l', p') = find_first-lookup m' h.other_distinct e' in
        let lw = sym (h.same j) ∙ l' in
        let q = unique k j v w b c l p lw p' in
        let same : v ≡ w = ap (λ o. unwrap_or o v) (sym l ∙ ap (λ x. lookup x m) q ∙ lw) in
        e' ∙ sym p' ∙ ap pick (sym same) ∙ p ∙ sym e
  ]
