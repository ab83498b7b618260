-- ===== src/Notes/Etag/Order.antt =====
-- app/notes/service.py: the composite etag and the order of the attachments.
use mathlib.Core.List.{Perm, Permᴰ}
use mathlib.Core.List.Perm
use mathlib.Core.Logic.{∥∥₁_elim}
use super_secure_notes_api.Prelude.{ℕ, ◌≡◌, refl, ◌∙◌, true, false, List, [], ◌∷◌, arith}
use super_secure_notes_api.Prelude.Text.{Text}
use super_secure_notes_api.Notes.Etag.{text_le, insert_text, sorted, part, compute_composite_etag}

text_le_total : (s t : Text) → text_le s t ≡ false → text_le t s ≡ true
unfolding text_le
text_le_total [] t h = cc
text_le_total (x ∷ s) [] h = refl
text_le_total (x ∷ s) (y ∷ t) h = ground (arith, text_le_total s t)

text_le_antisym : (s t : Text) → text_le s t ≡ true → text_le t s ≡ true → s ≡ t
unfolding text_le
text_le_antisym [] [] h k = refl
text_le_antisym [] (y ∷ t) h k = cc
text_le_antisym (x ∷ s) [] h k = cc
text_le_antisym (x ∷ s) (y ∷ t) h k = ground (arith, text_le_antisym s t)

text_le_trans : (s t u : Text) → text_le s t ≡ true → text_le t u ≡ true → text_le s u ≡ true
unfolding text_le
text_le_trans [] t u h k = refl
text_le_trans (x ∷ s) [] u h k = cc
text_le_trans (x ∷ s) (y ∷ t) [] h k = cc
text_le_trans (x ∷ s) (y ∷ t) (z ∷ u) h k = ground (arith, text_le_trans s t u)

insert_text_comm :
    (s t : Text) (l : List Text) → insert_text s (insert_text t l) ≡ insert_text t (insert_text s l)
unfolding insert_text
insert_text_comm s t [] = ground (arith, text_le_total s t, text_le_total t s, text_le_antisym s t)
insert_text_comm s t (u ∷ l) = ground (
  arith,
  insert_text_comm s t l,
  text_le_total s t,
  text_le_total t s,
  text_le_antisym s t,
  text_le_total s u,
  text_le_total t u,
  text_le_trans s t u,
  text_le_trans t s u,
)

sorted_permᴰ : {xs ys : List Text} → Permᴰ xs ys → sorted xs ≡ sorted ys
unfolding sorted
sorted_permᴰ Permᴰ.nil = refl
sorted_permᴰ (Permᴰ.cons {l₁ = l} same p) = cc (sorted_permᴰ p, same)
sorted_permᴰ (Permᴰ.swap {a} {b} {l = l} p q) = cc (p, q, insert_text_comm a b (sorted l))
sorted_permᴰ (Permᴰ.trans p q) = sorted_permᴰ p ∙ sorted_permᴰ q

Texts-set : IsSet (List Text)
Texts-set = hlevel

-- `sorted` forgets the order of its argument.
pub sorted_perm : {xs ys : List Text} → Perm xs ys → sorted xs ≡ sorted ys
sorted_perm p = ∥∥₁_elim p (Texts-set _ _) sorted_permᴰ

-- The composite etag of a note is the same for every order in which its attachments are listed.
pub compute_composite_etag-perm :
    (sha256 : List ℕ → Text) (body_etag : Text) {xs ys : List (ℕ × Text)}
    → Perm xs ys
    → compute_composite_etag sha256 body_etag xs ≡ compute_composite_etag sha256 body_etag ys
unfolding compute_composite_etag
compute_composite_etag-perm sha256 body_etag p = rw (sorted_perm (Perm.map part p))
