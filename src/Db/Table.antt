-- ===== src/Db/Table.antt =====
-- The statements that the source builds with SQLAlchemy (app/notes/service.py, app/notes/uploads.py,
-- app/shares/router.py), on a table as the list of its rows: SELECT, UPDATE and DELETE with a WHERE
-- test, and ORDER BY.
pub mod Laws
pub mod Order
use super_secure_notes_api.Prelude.{
  ℕ, Bool, true, false, Option, none, some, List, [], ◌∷◌, ◌++◌, map, ltb, if◌then◌else◌,
}

module _ {ℓ} {A : Type ℓ} where
  -- `select(T).where(p)`, all rows.
  unfoldable pub select : (A → Bool) → List A → List A
  select p [] = []
  select p (x ∷ rows) = let rest = select p rows in if p x then x ∷ rest else rest

  -- `select(T).where(p)` with a test on a primary key or a unique column, which one row meets at most:
  -- `scalar_one_or_none()`.
  unfoldable pub find : (A → Bool) → List A → Option A
  find p [] = none
  find p (x ∷ rows) = if p x then some x else find p rows

  -- `delete(T).where(p)`.
  unfoldable pub remove : (A → Bool) → List A → List A
  remove p [] = []
  remove p (x ∷ rows) = let rest = remove p rows in if p x then rest else x ∷ rest

  -- Attributes assigned on the rows that a query gave.
  unfoldable pub update : (A → Bool) → (A → A) → List A → List A
  update p f [] = []
  update p f (x ∷ rows) = (if p x then f x else x) ∷ update p f rows

  unfoldable pub exists : (A → Bool) → List A → Bool
  exists p [] = false
  exists p (x ∷ rows) = if p x then true else exists p rows

  -- `order_by(key)`: a stable sort. SQL leaves the order of equal keys open.
  unfoldable pub insert_by : (A → ℕ) → A → List A → List A
  insert_by key x [] = x ∷ []
  insert_by key x (y ∷ rows) =
      let rest = insert_by key x rows in if ltb (key y) (key x) then y ∷ rest else x ∷ y ∷ rows

  unfoldable pub order_by : (A → ℕ) → List A → List A
  unfolding insert_by
  order_by key [] = []
  order_by key (x ∷ rows) = insert_by key x (order_by key rows)

  -- `order_by(key.desc())`
  unfoldable pub insert_desc : (A → ℕ) → A → List A → List A
  insert_desc key x [] = x ∷ []
  insert_desc key x (y ∷ rows) =
      let rest = insert_desc key x rows in if ltb (key x) (key y) then y ∷ rest else x ∷ y ∷ rows

  unfoldable pub order_by_desc : (A → ℕ) → List A → List A
  unfolding insert_desc
  order_by_desc key [] = []
  order_by_desc key (x ∷ rows) = insert_desc key x (order_by_desc key rows)

-- `select(A, B).join(B, on)`
unfoldable pub join {ℓ} : {A B : Type ℓ} → (A → B → Bool) → List A → List B → List (A × B)
unfolding select
join on [] ys = []
join on (x ∷ xs) ys = map (λ y. (x, y)) (select (on x) ys) ++ join on xs ys
