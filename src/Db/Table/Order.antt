-- ===== src/Db/Table/Order.antt =====
-- ORDER BY gives the same rows in ascending order; keys that are distinct and below the number of
-- rows are then 0, 1, 2, ….
use super_secure_notes_api.Prelude.{
  ℕ, suc, ◌+◌, ◌≤◌, ◌<◌, ◌≡◌, ◌≢◌, refl, subst, sym, ap, ◌∙◌, Bool, some, List, [], ◌∷◌, arith, ltb,
  length, Bool-cases, inl, inr, if◌then◌else◌,
}
use super_secure_notes_api.Db.Table.{insert_by, order_by, update, remove, find}
use super_secure_notes_api.Db.Table.Laws.{All, All-update, All-remove, All-map, find-All}

module _ {ℓ} {A : Type ℓ} (key : A → ℕ) where
  -- No two rows have one key.
  abbrev pub Distinct : List A → Type 0
  Distinct [] = Unit
  Distinct (x ∷ rows) = All (λ y. key y ≢ key x) rows × Distinct rows

  -- Keys from `lo` on that grow.
  abbrev pub Ascending : ℕ → List A → Type 0
  Ascending lo [] = Unit
  Ascending lo (x ∷ rows) = (lo ≤ key x) × Ascending (suc (key x)) rows

  -- The keys `lo`, `lo + 1`, ….
  abbrev pub IsRange : ℕ → List A → Type 0
  IsRange lo [] = Unit
  IsRange lo (x ∷ rows) = (key x ≡ lo) × IsRange (suc lo) rows

  All-insert_by {κ} :
      (P : A → Type κ) (x : A) (rows : List A) → P x → All P rows → All P (insert_by key x rows)
  unfolding insert_by
  All-insert_by P x [] h all = (h, tt)
  All-insert_by P x (y ∷ rows) h all = elim (Bool-cases (ltb (key y) (key x))) [
    | inl less ↦ rw less (all.0, All-insert_by P x rows h all.1)
    | inr more ↦ rw more (h, all)
  ]

  pub All-order_by {κ} : (P : A → Type κ) (rows : List A) → All P rows → All P (order_by key rows)
  unfolding order_by
  All-order_by P [] all = tt
  All-order_by P (x ∷ rows) all =
      All-insert_by P x (order_by key rows) all.0 (All-order_by P rows all.1)

  length-insert_by : (x : A) (rows : List A) → length (insert_by key x rows) ≡ suc (length rows)
  unfolding insert_by
  length-insert_by x [] = refl
  length-insert_by x (y ∷ rows) = ground (arith, length-insert_by x rows)

  pub length-order_by : (rows : List A) → length (order_by key rows) ≡ length rows
  unfolding order_by
  length-order_by [] = refl
  length-order_by (x ∷ rows) =
      omega (arith, length-insert_by x (order_by key rows), length-order_by rows)

  insert_by-Ascending :
      (lo : ℕ) (x : A) (rows : List A)
      → lo ≤ key x
      → All (λ y. key y ≢ key x) rows
      → Ascending lo rows
      → Ascending lo (insert_by key x rows)
  unfolding insert_by
  insert_by-Ascending lo x [] h new asc = (h, tt)
  insert_by-Ascending lo x (y ∷ rows) h new asc = elim (Bool-cases (ltb (key y) (key x))) [
    | inl less ↦
        rw less (asc.0, insert_by-Ascending (suc (key y)) x rows (ground arith) new.1 asc.1)
    | inr more ↦ rw more (h, (ground arith, asc.1))
  ]

  pub order_by-Ascending : (rows : List A) → Distinct rows → Ascending 0 (order_by key rows)
  unfolding order_by
  order_by-Ascending [] d = tt
  order_by-Ascending (x ∷ rows) d =
      insert_by-Ascending 0 x (order_by key rows) (omega arith)
        (All-order_by (λ y. key y ≢ key x) rows d.0) (order_by-Ascending rows d.1)

  -- Ascending keys below `n` are `n - lo` at most.
  Ascending-length :
      (lo n : ℕ) (rows : List A)
      → lo ≤ n
      → Ascending lo rows
      → All (λ y. key y < n) rows
      → length rows + lo ≤ n
  Ascending-length lo n [] le asc below = omega arith
  Ascending-length lo n (x ∷ rows) le asc below =
      let rest = Ascending-length (suc (key x)) n rows below.0 asc.1 below.1 in omega arith

  -- Pigeonhole: as many ascending keys as there are values below `n` are all of these values.
  pub Ascending-IsRange :
      (lo n : ℕ) (rows : List A)
      → Ascending lo rows
      → All (λ y. key y < n) rows
      → length rows + lo ≡ n
      → IsRange lo rows
  Ascending-IsRange lo n [] asc below len = tt
  Ascending-IsRange lo n (x ∷ rows) asc below len =
      let rest = Ascending-length (suc (key x)) n rows below.0 asc.1 below.1 in
      let here : key x ≡ lo = omega arith in
      (
        here,
        Ascending-IsRange (suc lo) n rows (subst (λ k. Ascending (suc k) rows) here asc.1) below.1
            (omega arith),
      )

  Distinct_ne :
      (k : ℕ) (p : A → Bool) (f : A → A) (rows : List A)
      → ((x : A) → key (f x) ≡ key x)
      → All (λ y. key y ≢ k) rows
      → All (λ y. key y ≢ k) (update p f rows)
  Distinct_ne k p f rows keep all = All-update _ p f rows (λ x hit h e. h (sym (keep x) ∙ e)) all

  -- Assignments that keep the keys.
  pub Distinct-update :
      (p : A → Bool) (f : A → A) (rows : List A)
      → ((x : A) → key (f x) ≡ key x)
      → Distinct rows
      → Distinct (update p f rows)
  unfolding update
  Distinct-update p f [] keep d = tt
  Distinct-update p f (x ∷ rows) keep d =
      let same : key (if p x then f x else x) ≡ key x = ground (arith, keep x) in
      (rw same (Distinct_ne (key x) p f rows keep d.0), Distinct-update p f rows keep d.1)

  pub Distinct-remove : (p : A → Bool) (rows : List A) → Distinct rows → Distinct (remove p rows)
  unfolding remove
  Distinct-remove p [] d = tt
  Distinct-remove p (x ∷ rows) d = elim (Bool-cases (p x)) [
    | inl hit ↦ rw hit (Distinct-remove p rows d.1)
    | inr miss ↦ rw miss (All-remove _ p rows d.0, Distinct-remove p rows d.1)
  ]

  -- With distinct keys, the row that a query found is the only one with its key.
  pub Distinct-find :
      (p : A → Bool) (rows : List A) (x : A)
      → Distinct rows
      → find p rows ≡ some x
      → All (λ y. key y ≡ key x → y ≡ x) rows
  unfolding find
  Distinct-find p [] x d h = tt
  Distinct-find p (y ∷ rows) x d h = elim (Bool-cases (p y)) [
    | inl hit ↦
        let here : y ≡ x = ground arith in
        (λ _. here, All-map _ _ rows (λ z ne e. absurd (ne (e ∙ ap key (sym here)))) d.0)
    | inr miss ↦
        let there : find p rows ≡ some x = ground arith in
        (
          λ e. absurd (find-All (λ z. key z ≢ key y) p rows x d.0 there (sym e)),
          Distinct-find p rows x d.1 there,
        )
  ]
