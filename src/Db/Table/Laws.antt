-- ===== src/Db/Table/Laws.antt =====
-- What a query finds after a statement.
use super_secure_notes_api.Prelude.{
  ◌≡◌, refl, Bool, true, false, Option, none, some, List, [], ◌∷◌, ◌++◌, ◌&&◌, length, arith,
  if◌then◌else◌, Bool-cases, inl, inr, subst,
}
use super_secure_notes_api.Db.Table.{select, find, remove, update, exists}

module _ {ℓ} {A : Type ℓ} where
  -- The row that a query found meets its test.
  pub find-test : (p : A → Bool) (rows : List A) (x : A) → find p rows ≡ some x → p x ≡ true
  unfolding find
  find-test p [] x h = cc
  find-test p (y ∷ rows) x h = ground (arith, find-test p rows x)

  -- A DELETE that meets no row of the query leaves its answer alone.
  pub find-remove_ne :
      (q p : A → Bool) (rows : List A)
      → ((x : A) → p x ≡ true → q x ≡ false)
      → find q (remove p rows) ≡ find q rows
  unfolding find remove
  find-remove_ne q p [] h = refl
  find-remove_ne q p (x ∷ rows) h = ground (arith, h x, find-remove_ne q p rows h)

  -- After a DELETE of all rows that a query tests for, it finds none.
  pub find-remove :
      (q p : A → Bool) (rows : List A)
      → ((x : A) → q x ≡ true → p x ≡ true)
      → find q (remove p rows) ≡ none
  unfolding find remove
  find-remove q p [] h = refl
  find-remove q p (x ∷ rows) h = ground (arith, h x, find-remove q p rows h)

  pub select-remove_ne :
      (q p : A → Bool) (rows : List A)
      → ((x : A) → p x ≡ true → q x ≡ false)
      → select q (remove p rows) ≡ select q rows
  unfolding select remove
  select-remove_ne q p [] h = refl
  select-remove_ne q p (x ∷ rows) h = ground (arith, h x, select-remove_ne q p rows h)

  pub select-remove :
      (q p : A → Bool) (rows : List A)
      → ((x : A) → q x ≡ true → p x ≡ true)
      → select q (remove p rows) ≡ []
  unfolding select remove
  select-remove q p [] h = refl
  select-remove q p (x ∷ rows) h = ground (arith, h x, select-remove q p rows h)

  -- Assignments that keep the tested attributes.
  abbrev pub assigned : (A → A) → Option A → Option A
  assigned f none = none
  assigned f (some x) = some (f x)

  pub find-update :
      (q p : A → Bool) (f : A → A) (rows : List A)
      → ((x : A) → q (f x) ≡ q x)
      → ((x : A) → q x ≡ true → p x ≡ true)
      → find q (update p f rows) ≡ assigned f (find q rows)
  unfolding find update
  find-update q p f [] h k = refl
  find-update q p f (x ∷ rows) h k = ground (arith, h x, k x, find-update q p f rows h k)

  pub find-update_ne :
      (q p : A → Bool) (f : A → A) (rows : List A)
      → ((x : A) → q (f x) ≡ q x)
      → ((x : A) → p x ≡ true → q x ≡ false)
      → find q (update p f rows) ≡ find q rows
  unfolding find update
  find-update_ne q p f [] h k = refl
  find-update_ne q p f (x ∷ rows) h k = ground (arith, h x, k x, find-update_ne q p f rows h k)

  -- The same where the assignments may change what is tested.
  pub find-update_other :
      (q p : A → Bool) (f : A → A) (rows : List A)
      → ((x : A) → p x ≡ true → q x ≡ false)
      → ((x : A) → p x ≡ true → q (f x) ≡ false)
      → find q (update p f rows) ≡ find q rows
  unfolding find update
  find-update_other q p f [] h k = refl
  find-update_other q p f (x ∷ rows) h k =
      ground (arith, h x, k x, find-update_other q p f rows h k)

  pub select-update_ne :
      (q p : A → Bool) (f : A → A) (rows : List A)
      → ((x : A) → q (f x) ≡ q x)
      → ((x : A) → p x ≡ true → q x ≡ false)
      → select q (update p f rows) ≡ select q rows
  unfolding select update
  select-update_ne q p f [] h k = refl
  select-update_ne q p f (x ∷ rows) h k = ground (arith, h x, k x, select-update_ne q p f rows h k)

module _ {ℓ κ} {A : Type ℓ} where
  -- Every row has the property.
  abbrev pub All : (A → Type κ) → List A → Type κ
  All P [] = Unit
  All P (x ∷ rows) = P x × All P rows

module _ {ℓ κ} {A : Type ℓ} where
  pub find-All :
      (P : A → Type κ) (p : A → Bool) (rows : List A) (x : A)
      → All P rows
      → find p rows ≡ some x
      → P x
  unfolding find
  find-All P p [] x all h = cc
  find-All P p (y ∷ rows) x all h = elim (Bool-cases (p y)) [
    | inl hit ↦ subst P (ground arith) (all.0)
    | inr miss ↦ find-All P p rows x all.1 (ground arith)
  ]

  pub All-select :
      (P : A → Type κ) (p : A → Bool) (rows : List A) → All P rows → All P (select p rows)
  unfolding select
  All-select P p [] all = tt
  All-select P p (x ∷ rows) all = elim (Bool-cases (p x)) [
    | inl hit ↦ rw hit (all.0, All-select P p rows all.1)
    | inr miss ↦ rw miss (All-select P p rows all.1)
  ]

  pub All-remove :
      (P : A → Type κ) (p : A → Bool) (rows : List A) → All P rows → All P (remove p rows)
  unfolding remove
  All-remove P p [] all = tt
  All-remove P p (x ∷ rows) all = elim (Bool-cases (p x)) [
    | inl hit ↦ rw hit (All-remove P p rows all.1)
    | inr miss ↦ rw miss (all.0, All-remove P p rows all.1)
  ]

  pub All-update :
      (P : A → Type κ) (p : A → Bool) (f : A → A) (rows : List A)
      → ((x : A) → p x ≡ true → P x → P (f x))
      → All P rows
      → All P (update p f rows)
  unfolding update
  All-update P p f [] keep all = tt
  All-update P p f (x ∷ rows) keep all = elim (Bool-cases (p x)) [
    | inl hit ↦ rw hit (keep x hit all.0, All-update P p f rows keep all.1)
    | inr miss ↦ rw miss (all.0, All-update P p f rows keep all.1)
  ]

-- An UPDATE, by what it does to the rows that it meets and to the others.
pub All-update_split {ℓ κ μ} :
    {A : Type ℓ} (P : A → Type κ) (Q : A → Type μ) (p : A → Bool) (f : A → A) (rows : List A)
    → ((x : A) → p x ≡ true → P x → Q (f x))
    → ((x : A) → p x ≡ false → P x → Q x)
    → All P rows
    → All Q (update p f rows)
unfolding update
All-update_split P Q p f [] met left all = tt
All-update_split P Q p f (x ∷ rows) met left all = elim (Bool-cases (p x)) [
  | inl hit ↦ rw hit (met x hit all.0, All-update_split P Q p f rows met left all.1)
  | inr miss ↦ rw miss (left x miss all.0, All-update_split P Q p f rows met left all.1)
]

pub All-map {ℓ κ μ} :
    {A : Type ℓ} (P : A → Type κ) (Q : A → Type μ) (rows : List A)
    → ((x : A) → P x → Q x)
    → All P rows
    → All Q rows
All-map P Q [] f all = tt
All-map P Q (x ∷ rows) f all = (f x all.0, All-map P Q rows f all.1)

module _ {ℓ κ} {A : Type ℓ} where
  pub All-append : (P : A → Type κ) (xs ys : List A) → All P xs → All P ys → All P (xs ++ ys)
  All-append P [] ys hx hy = hy
  All-append P (x ∷ xs) ys hx hy = (hx.0, All-append P xs ys hx.1 hy)

module _ {ℓ κ μ} {A : Type ℓ} (P : A → Type κ) (Q : A → Type μ) where
  pub All-both : (rows : List A) → All P rows → All Q rows → All (λ x. P x × Q x) rows
  All-both [] ps qs = tt
  All-both (x ∷ rows) ps qs = ((ps.0, qs.0), All-both rows ps.1 qs.1)

module _ {ℓ} {A : Type ℓ} where
  -- What a DELETE leaves.
  pub All-remove_self : (p : A → Bool) (rows : List A) → All (λ x. p x ≡ false) (remove p rows)
  unfolding remove
  All-remove_self p [] = tt
  All-remove_self p (x ∷ rows) = elim (Bool-cases (p x)) [
    | inl hit ↦ rw hit (All-remove_self p rows)
    | inr miss ↦ rw (miss, ◌≡◌) (miss, All-remove_self p rows)
  ]

  -- A query that found nothing met no row.
  pub exists-false :
      (p : A → Bool) (rows : List A) → exists p rows ≡ false → All (λ x. p x ≡ false) rows
  unfolding exists
  exists-false p [] h = tt
  exists-false p (x ∷ rows) h = (ground arith, exists-false p rows (ground arith))

  pub find-none :
      (p q : A → Bool) (rows : List A)
      → find (λ x. p x && q x) rows ≡ none
      → All (λ x. q x ≡ false) (select p rows)
  unfolding find select
  find-none p q [] h = tt
  find-none p q (x ∷ rows) h = elim (Bool-cases (p x)) [
    | inl hit ↦ rw (hit, select) (ground arith, find-none p q rows (ground arith))
    | inr miss ↦ rw (miss, select) (find-none p q rows (ground arith))
  ]

  pub select-none :
      (p : A → Bool) (rows : List A) → All (λ x. p x ≡ false) rows → select p rows ≡ []
  unfolding select
  select-none p [] all = refl
  select-none p (x ∷ rows) all = ground (arith, select-none p rows all.1)

  pub select-cons_hit :
      (p : A → Bool) (x : A) (rows : List A) → p x ≡ true → select p (x ∷ rows) ≡ x ∷ select p rows
  unfolding select
  select-cons_hit p x rows h = rw h refl

  pub select-cons_miss :
      (p : A → Bool) (x : A) (rows : List A) → p x ≡ false → select p (x ∷ rows) ≡ select p rows
  unfolding select
  select-cons_miss p x rows h = rw h refl

  -- Assignments that keep the tested attributes go through the query.
  pub select-update :
      (q p : A → Bool) (f : A → A) (rows : List A)
      → ((x : A) → q (f x) ≡ q x)
      → select q (update p f rows) ≡ update p f (select q rows)
  unfolding select update
  select-update q p f [] h = refl
  select-update q p f (x ∷ rows) h = elim (Bool-cases (q x)) [
    | inl hit ↦ ground (arith, h x, select-update q p f rows h)
    | inr miss ↦ ground (arith, h x, select-update q p f rows h)
  ]

  pub length-update :
      (p : A → Bool) (f : A → A) (rows : List A) → length (update p f rows) ≡ length rows
  unfolding update
  length-update p f [] = refl
  length-update p f (x ∷ rows) = omega (arith, length-update p f rows)

  pub exists-remove_ne :
      (q p : A → Bool) (rows : List A)
      → ((x : A) → p x ≡ true → q x ≡ false)
      → exists q (remove p rows) ≡ exists q rows
  unfolding exists remove
  exists-remove_ne q p [] h = refl
  exists-remove_ne q p (x ∷ rows) h = ground (arith, h x, exists-remove_ne q p rows h)

pub exists-cons {ℓ} :
    {A : Type ℓ} (p : A → Bool) (y : A) (rows : List A)
    → exists p rows ≡ true
    → exists p (y ∷ rows) ≡ true
unfolding exists
exists-cons p y rows h = ground (arith, h)

pub exists_of_find {ℓ} :
    {A : Type ℓ} (p q : A → Bool) (rows : List A) (x : A)
    → find p rows ≡ some x
    → q x ≡ true
    → exists q rows ≡ true
unfolding find exists
exists_of_find p q [] x h k = cc
exists_of_find p q (y ∷ rows) x h k = ground (arith, exists_of_find p q rows x)

module _ {ℓ} {A : Type ℓ} where
  -- A row that is found is found again after assignments that keep the tested attributes.
  pub find-update_found :
      (q p : A → Bool) (f : A → A) (rows : List A) (x : A)
      → ((y : A) → q (f y) ≡ q y)
      → find q rows ≡ some x
      → find q (update p f rows) ≡ some (if p x then f x else x)
  unfolding find update
  find-update_found q p f [] x keep h = cc
  find-update_found q p f (y ∷ rows) x keep h =
      ground (arith, keep y, find-update_found q p f rows x keep)

  pub find-exists_false :
      (q : A → Bool) (rows : List A) → exists q rows ≡ false → find q rows ≡ none
  unfolding exists find
  find-exists_false q [] h = refl
  find-exists_false q (x ∷ rows) h = ground (arith, find-exists_false q rows)

  pub find-none_exists : (p : A → Bool) (rows : List A) → find p rows ≡ none → exists p rows ≡ false
  unfolding find exists
  find-none_exists p [] h = refl
  find-none_exists p (x ∷ rows) h = ground (arith, find-none_exists p rows)

  pub exists-update_keep :
      (q p : A → Bool) (f : A → A) (rows : List A)
      → ((y : A) → q (f y) ≡ q y)
      → exists q (update p f rows) ≡ exists q rows
  unfolding exists update
  exists-update_keep q p f [] keep = refl
  exists-update_keep q p f (x ∷ rows) keep =
      ground (arith, keep x, exists-update_keep q p f rows keep)

  -- Another test that the row passes finds a row too.
  pub find-other :
      (p q : A → Bool) (rows : List A) (x : A)
      → find p rows ≡ some x
      → q x ≡ true
      → (y : A) × (find q rows ≡ some y)
  unfolding find
  find-other p q [] x h hit = cc
  find-other p q (y ∷ rows) x h hit = elim (Bool-cases (q y)) [
    | inl here ↦ (y, rw here refl)
    | inr miss ↦ rw miss (find-other p q rows x (ground arith) hit)
  ]
