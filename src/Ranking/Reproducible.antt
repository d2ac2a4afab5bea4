-- ===== src/Ranking/Reproducible.antt =====
-- That the order of internal/modules/ranking/ranking.go hangs on the listings and the seed only.
use market_place.Prelude.{
  ℕ, ◌≡◌, refl, sym, ap, ◌∙◌, inl, inr, Bool-cases, true, false, List, [], ◌∷◌,
}
use market_place.Ranking.Formula.{Scored}
use market_place.Ranking.Sorting.{
  precedes, insert, sort_stable, with_key, order, precedes_asym, precedes_trans, precedes_total,
}

insert-behind :
    (x y : Scored) (ys : List Scored) → precedes y x ≡ true → insert x (y ∷ ys) ≡ y ∷ insert x ys
unfolding insert
insert-behind x y ys e = rw (e) refl

insert-front :
    (x y : Scored) (ys : List Scored) → precedes y x ≡ false → insert x (y ∷ ys) ≡ x ∷ (y ∷ ys)
unfolding insert
insert-front x y ys e = rw (e) refl

insert-insert_ordered :
    (a b : Scored) (l : List Scored)
    → precedes a b ≡ true
    → insert a (insert b l) ≡ insert b (insert a l)
unfolding insert
insert-insert_ordered a b [] e = rw (e, precedes_asym a b e) refl
insert-insert_ordered a b (y ∷ ys) e = elim (Bool-cases (precedes y a)) [
  | inl first ↦
      let both = precedes_trans y a b first e in
      ap (λ t. insert a t) (insert-behind b y ys both)
      ∙ (insert-behind a y (insert b ys) first
          ∙ (ap (λ t. y ∷ t) (insert-insert_ordered a b ys e)
              ∙ sym (
                  ap (λ t. insert b t) (insert-behind a y ys first)
                  ∙ insert-behind b y (insert a ys) both)))
  | inr behind ↦ elim (Bool-cases (precedes y b)) [
    | inl between ↦
        ap (λ t. insert a t) (insert-behind b y ys between)
        ∙ (insert-front a y (insert b ys) behind
            ∙ sym (
                ap (λ t. insert b t) (insert-front a y ys behind)
                ∙ (insert-behind b a (y ∷ ys) e ∙ ap (λ t. a ∷ t) (insert-behind b y ys between))))
    | inr last ↦ rw (behind, last, e, precedes_asym a b e) refl
  ]
]

insert-insert :
    (a b : Scored) (l : List Scored)
    → (a.product ≡ b.product → a ≡ b)
    → insert a (insert b l) ≡ insert b (insert a l)
insert-insert a b l one = elim (Bool-cases (precedes a b)) [
  | inl first ↦ insert-insert_ordered a b l first
  | inr behind ↦ elim (Bool-cases (precedes b a)) [
    | inl second ↦ sym (insert-insert_ordered b a l second)
    | inr same ↦
        ap (λ x. insert x (insert b l)) (one (precedes_total a b behind same))
        ∙ ap (λ x. insert b (insert x l)) (sym (one (precedes_total a b behind same)))
  ]
]

-- A listing of a list.
pub data IsIn {A : Type 0} (a : A) : List A → Type 0 where
  here : {l : List A} → IsIn a (a ∷ l)
  there : {b : A} {l : List A} → IsIn a l → IsIn a (b ∷ l)

-- The same listings, in another order.
pub data Reordered {A : Type 0} : List A → List A → Type 0 where
  none : Reordered [] []
  keep : (a : A) (l l' : List A) → Reordered l l' → Reordered (a ∷ l) (a ∷ l')
  swap : (a b : A) (l : List A) → Reordered (a ∷ (b ∷ l)) (b ∷ (a ∷ l))
  chain : (l l' l'' : List A) → Reordered l l' → Reordered l' l'' → Reordered l l''

back-IsIn : {A : Type 0} (a : A) (l l' : List A) → Reordered l l' → IsIn a l' → IsIn a l
back-IsIn a _ _ none m = m
back-IsIn a _ _ (keep _ l l' r) here = here
back-IsIn a _ _ (keep b l l' r) (there m) = there (back-IsIn a l l' r m)
back-IsIn a _ _ (swap _ b l) here = there here
back-IsIn a _ _ (swap b _ l) (there here) = here
back-IsIn a _ _ (swap b c l) (there (there m)) = there (there m)
back-IsIn a _ _ (chain l l' l'' r q) m = back-IsIn a l l' r (back-IsIn a l' l'' q m)

-- No two listings have one id.
abbrev pub IsCatalogue : List Scored → Type 0
IsCatalogue l = (a b : Scored) → IsIn a l → IsIn b l → a.product ≡ b.product → a ≡ b

keyed :
    (seed : ℕ) (a b : Scored)
    → (a.product ≡ b.product → a ≡ b)
    → (with_key seed a).product ≡ (with_key seed b).product
    → with_key seed a ≡ with_key seed b
unfolding with_key
keyed seed a b one same = ap (λ r. with_key seed r) (one same)

-- The order of the results is the same in whatever order the listings come, for listings with
-- distinct ids.
pub order-Reordered :
    (xs ys : List Scored) (seed : ℕ)
    → IsCatalogue xs
    → Reordered xs ys
    → order xs seed ≡ order ys seed
unfolding order sort_stable
order-Reordered _ _ seed one none = refl
order-Reordered _ _ seed one (keep a l l' r) =
    ap (λ t. insert (with_key seed a) t)
      (order-Reordered l l' seed (λ x y p q. one x y (there p) (there q)) r)
order-Reordered _ _ seed one (swap a b l) =
    insert-insert (with_key seed a) (with_key seed b) (order l seed)
      (keyed seed a b (one a b here (there here)))
order-Reordered _ _ seed one (chain l l' l'' r q) =
    order-Reordered l l' seed one r
    ∙ order-Reordered l' l'' seed
        (λ x y p p'. one x y (back-IsIn x l l' r p) (back-IsIn y l l' r p')) q
