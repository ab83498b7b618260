-- ===== src/Config/Needs.antt =====
-- app/config.py: when the URL of a database is given `ssl=require`, described with no test of the code.
use super_secure_notes_api.Prelude.{
  ◌≡◌, ◌≢◌, ◌↔◌, refl, ap, ◌∙◌, Bool, true, false, not, ◌&&◌, ◌||◌, Option, none, some, [], ◌∷◌,
  ◌++◌, arith, Bool-cases, inl, inr, ◌⊎◌, ==_refl,
}
use super_secure_notes_api.Prelude.Text.{Text, codes, text_eq, text_eq→eq, text_eq_refl}
use super_secure_notes_api.Db.Table.{find, exists}
use super_secure_notes_api.Config.{
  Query, has_name, sslmode, after_prefix, contains, is_some, is_local, is_render_host, wants_ssl,
}

-- The value of a name.
abbrev pub value_of : Option (Text × Text) → Option Text
value_of none = none
value_of (some item) = some item.1

abbrev pub get : Text → Query → Option Text
get name query = value_of (find (has_name name) query)

-- The query has an `sslmode` other than "disable" and the empty one.
abbrev pub AsksTls : Query → Type 0
AsksTls query =
    (mode : Text) × (get (codes "sslmode") query ≡ some mode)
    × (mode ≢ [])
    × (mode ≢ codes "disable")

abbrev pub IsLocal : Text → Type 0
IsLocal host =
    (host ≡ codes "localhost")
    ⊎ (host ≡ codes "127.0.0.1")
    ⊎ (host ≡ codes "::1")
    ⊎ (host ≡ codes "db")

-- The service runs on Render, or the host has "render.com" in its name or "dpg-" in front of it.
abbrev pub IsOfRender : Bool → Text → Type 0
IsOfRender on_render host =
    (on_render ≡ true)
    ⊎ ((a : Text) × (b : Text) × (host ≡ a ++ (codes "render.com" ++ b)))
    ⊎ ((rest : Text) × (host ≡ codes "dpg-" ++ rest))

abbrev pub NeedsTls : Bool → Text → Query → Type 0
NeedsTls on_render host query = AsksTls query ⊎ ((¬ IsLocal host) × IsOfRender on_render host)

after_prefix-some : (prefix s rest : Text) → after_prefix prefix s ≡ some rest → s ≡ prefix ++ rest
unfolding after_prefix
after_prefix-some [] s rest h = cc
after_prefix-some (c ∷ prefix) [] rest h = cc
after_prefix-some (c ∷ prefix) (d ∷ s) rest h = ground (arith, after_prefix-some prefix s rest)

after_prefix-append : (prefix rest : Text) → after_prefix prefix (prefix ++ rest) ≡ some rest
unfolding after_prefix
after_prefix-append [] rest = refl
after_prefix-append (c ∷ prefix) rest = rw (==_refl c) (after_prefix-append prefix rest)

is_some-cases : {A : Type 0} (o : Option A) → is_some o ≡ true → (a : A) × (o ≡ some a)
is_some-cases none h = cc
is_some-cases (some a) h = (a, refl)

starts_with :
    (prefix s : Text)
    → is_some (after_prefix prefix s) ≡ true
    → (rest : Text) × (s ≡ prefix ++ rest)
starts_with prefix s h =
    let (rest, e) = is_some-cases (after_prefix prefix s) h in
    (rest, after_prefix-some prefix s rest e)

contains-split :
    (word s : Text) → contains word s ≡ true → (a : Text) × (b : Text) × (s ≡ a ++ (word ++ b))
unfolding contains
contains-split word [] h = let (b, e) = starts_with word [] h in ([], b, e)
contains-split word (c ∷ s) h = elim (Bool-cases (is_some (after_prefix word (c ∷ s)))) [
  | inl here ↦ let (b, e) = starts_with word (c ∷ s) here in ([], b, e)
  | inr later ↦
      let (a, b, e) = contains-split word s (ground (arith, h, later)) in (c ∷ a, b, ap (◌∷◌ c) e)
]

contains-prefix : (word s : Text) → is_some (after_prefix word s) ≡ true → contains word s ≡ true
unfolding contains
contains-prefix word [] h = h
contains-prefix word (c ∷ s) h = rw h refl

contains-append : (word a b : Text) → contains word (a ++ (word ++ b)) ≡ true
unfolding contains
contains-append word [] b =
    contains-prefix word (word ++ b) (ap is_some (after_prefix-append word b))
contains-append word (c ∷ a) b = ground (arith, contains-append word a b)

asks_iff :
    (item : Option (Text × Text))
    → (wants_ssl item ≡ true)
      ↔ ((mode : Text) × (value_of item ≡ some mode) × (mode ≢ []) × (mode ≢ codes "disable"))
asks_iff none = ((λ h. cc), (λ (mode, e, _, _). cc))
asks_iff (some (k, [])) =
    ((λ h. cc), (λ (mode, e, filled, _). let nil : mode ≡ [] = cc in absurd (filled nil)))
asks_iff (some (k, c ∷ mode)) = (
  (λ h. (
    c ∷ mode,
    refl,
    (λ e. cc),
    (λ e.
        ground (arith, h, ap (λ t. text_eq t (codes "disable")) e, text_eq_refl (codes "disable"))),
  )),
  (λ (other, e, _, ne). elim (Bool-cases (text_eq (c ∷ mode) (codes "disable"))) [
    | inl same ↦
        let asked : other ≡ c ∷ mode = cc in
        absurd (ne (asked ∙ text_eq→eq (c ∷ mode) (codes "disable") same))
    | inr differs ↦ rw differs refl
  ]),
)

local-IsLocal : (host : Text) → IsLocal host → is_local host ≡ true
unfolding is_local exists text_eq
local-IsLocal host (inl e) = rw e refl
local-IsLocal host (inr (inl e)) = rw e refl
local-IsLocal host (inr (inr (inl e))) = rw e refl
local-IsLocal host (inr (inr (inr e))) = rw e refl

IsLocal-iff : (host : Text) → (is_local host ≡ true) ↔ IsLocal host
unfolding is_local exists
IsLocal-iff host = (
  (λ h. elim (Bool-cases (text_eq host (codes "localhost"))) [
    | inl e ↦ inl (text_eq→eq _ _ e)
    | inr n₁ ↦ elim (Bool-cases (text_eq host (codes "127.0.0.1"))) [
      | inl e ↦ inr (inl (text_eq→eq _ _ e))
      | inr n₂ ↦ elim (Bool-cases (text_eq host (codes "::1"))) [
        | inl e ↦ inr (inr (inl (text_eq→eq _ _ e)))
        | inr n₃ ↦ inr (inr (inr (text_eq→eq host (codes "db") (ground (arith, h, n₁, n₂, n₃)))))
      ]
    ]
  ]),
  local-IsLocal host,
)

render_iff :
    (on_render : Bool) (host : Text)
    → ((on_render || is_render_host host) ≡ true) ↔ IsOfRender on_render host
unfolding is_render_host
render_iff true host = ((λ h. inl refl), (λ is. refl))
render_iff false host = (
  (λ h. elim (Bool-cases (contains (codes "render.com") host)) [
    | inl named ↦ inr (inl (contains-split (codes "render.com") host named))
    | inr no_name ↦ inr (inr (starts_with (codes "dpg-") host (ground (arith, h, no_name))))
  ]),
  back host,
)
  where
    back : (host : Text) → IsOfRender false host → is_render_host host ≡ true
    back host (inl e) = cc
    back host (inr (inl (a, b, e))) = rw (e, contains-append (codes "render.com") a b) refl
    back host (inr (inr (rest, e))) = elim (Bool-cases (contains (codes "render.com") host)) [
      | inl named ↦ rw named refl
      | inr no_name ↦ rw no_name (rw e refl)
    ]

-- The tests of the code, in one.
abbrev pub needs_ssl : Bool → Text → Query → Bool
needs_ssl on_render host query =
    wants_ssl (find (has_name sslmode) query)
    || (not (is_local host) && (on_render || is_render_host host))

tls_cases : (a b c : Bool) → (a || (not b && c)) ≡ true → (a ≡ true) ⊎ ((b ≡ false) × (c ≡ true))
tls_cases true b c h = inl refl
tls_cases false true c h = cc
tls_cases false false c h = inr (refl, h)

or_true : (a : Bool) → (a || true) ≡ true
or_true true = refl
or_true false = refl

pub needs_iff :
    (on_render : Bool) (host : Text) (query : Query)
    → (needs_ssl on_render host query ≡ true) ↔ NeedsTls on_render host query
needs_iff on_render host query =
    let asks = asks_iff (find (has_name sslmode) query) in
    let local = IsLocal-iff host in
    let render = render_iff on_render host in
    (
      (λ h. elim (tls_cases _ (is_local host) _ h) [
        | inl wants ↦ inl (asks.0 wants)
        | inr (far, on) ↦ inr ((λ is. let near = local.1 is in cc (far, near)), render.0 on)
      ]),
      (λ needs. elim needs [
        | inl wants ↦ rw (asks.1 wants) refl
        | inr (far, on) ↦ elim (Bool-cases (is_local host)) [
          | inl near ↦ absurd (far (local.0 near))
          | inr away ↦ rw (away, render.1 on) (or_true (wants_ssl (find (has_name sslmode) query)))
        ]
      ]),
    )
