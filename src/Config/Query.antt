-- ===== src/Config/Query.antt =====
-- app/config.py: the query of the URL that `normalize_database_url` gives.
use super_secure_notes_api.Prelude.{
  ◌≡◌, refl, sym, ap, ◌∙◌, Bool, true, false, not, ◌&&◌, ◌||◌, none, some, [], ◌∷◌, ◌++◌, arith,
  Bool-cases, Option-cases, inl, inr, ◌⊎◌, if◌then◌else◌,
}
use super_secure_notes_api.Prelude.Text.{Text, codes, text_eq, text_eq→eq, text_eq_refl}
use super_secure_notes_api.Db.Table.{find, exists, remove}
use super_secure_notes_api.Db.Table.Laws.{
  find-remove, find-remove_ne, exists-remove_ne, find-exists_false, find-none_exists,
}
use super_secure_notes_api.Config.Needs.{value_of, get, NeedsTls, needs_ssl, needs_iff}
use super_secure_notes_api.Config.{
  Query, has_name, ssl, sslmode, set_item, is_local, is_render_host, wants_ssl, normalize_query,
}

-- `ssl=require` at the end.
abbrev with_ssl : Query → Query
with_ssl query = query ++ ((ssl, codes "require") ∷ [])

exists-with_ssl : (query : Query) → exists (has_name ssl) (with_ssl query) ≡ true
unfolding exists text_eq
exists-with_ssl [] = refl
exists-with_ssl (x ∷ query) = elim (Bool-cases (has_name ssl x)) [
  | inl hit ↦ rw hit refl
  | inr miss ↦ rw miss (exists-with_ssl query)
]

-- `normalize_query` in one test.
outcome :
    (on_render : Bool) (host : Text) (query : Query)
    → normalize_query on_render host query ≡ (
        if exists (has_name ssl) (remove (has_name sslmode) query)
        then remove (has_name sslmode) query
        else if needs_ssl on_render host query
        then with_ssl (remove (has_name sslmode) query)
        else remove (has_name sslmode) query)
unfolding normalize_query set_item
outcome on_render host query =
    let rest = remove (has_name sslmode) query in
    let there = exists-with_ssl rest in
    elim (Bool-cases (exists (has_name ssl) rest)) [
      | inl has ↦ elim (Bool-cases (wants_ssl (find (has_name sslmode) query))) [
        | inl wants ↦ rw (has, wants) (rw has refl)
        | inr silent ↦ rw (has, silent) (rw has refl)
      ]
      | inr lacks ↦ elim (Bool-cases (wants_ssl (find (has_name sslmode) query))) [
        | inl wants ↦ rw (lacks, wants) (rw (lacks, there) refl)
        | inr silent ↦
            elim (Bool-cases (not (is_local host) && (on_render || is_render_host host))) [
              | inl remote ↦ rw (lacks, silent, remote) (rw lacks (rw (lacks, set_item) refl))
              | inr near ↦ rw (lacks, silent, near) (rw lacks refl)
            ]
      ]
    ]

-- What `normalize_query` returns is one of two queries.
two_outcomes :
    (on_render : Bool) (host : Text) (query : Query) (P : Query → Type 0)
    → (exists (has_name ssl) (remove (has_name sslmode) query) ≡ true
        → P (remove (has_name sslmode) query))
    → (exists (has_name ssl) (remove (has_name sslmode) query) ≡ false
        → needs_ssl on_render host query ≡ false
        → P (remove (has_name sslmode) query))
    → (exists (has_name ssl) (remove (has_name sslmode) query) ≡ false
        → needs_ssl on_render host query ≡ true
        → P (with_ssl (remove (has_name sslmode) query)))
    → P (normalize_query on_render host query)
two_outcomes on_render host query P h k l =
    rw (outcome on_render host query)
      (elim (Bool-cases (exists (has_name ssl) (remove (has_name sslmode) query))) [
        | inl has ↦ rw has (h has)
        | inr lacks ↦ elim (Bool-cases (needs_ssl on_render host query)) [
          | inl needs ↦ rw (lacks, needs) (l lacks needs)
          | inr fine ↦ rw (lacks, fine) (k lacks fine)
        ]
      ])

find-append_miss :
    (p : Text × Text → Bool) (item : Text × Text) (query : Query)
    → p item ≡ false
    → find p (query ++ (item ∷ [])) ≡ find p query
unfolding find
find-append_miss p item [] h = rw h refl
find-append_miss p item (x ∷ query) h = ground (arith, find-append_miss p item query h)

-- Another name is not met by the DELETE of `sslmode`.
apart_names :
    (m n : Text)
    → text_eq m n ≡ false
    → (item : Text × Text) → has_name n item ≡ true
    → has_name m item ≡ false
apart_names m n ne item hit = elim (Bool-cases (has_name m item)) [
  | inl same ↦
      let both : m ≡ n = sym (text_eq→eq item.0 m same) ∙ text_eq→eq item.0 n hit in
      absurd (cc (ne, ap (λ k. text_eq k n) both, text_eq_refl n))
  | inr other ↦ other
]

remove-none :
    (p : Text × Text → Bool) (query : Query) → find p query ≡ none → remove p query ≡ query
unfolding find remove
remove-none p [] h = refl
remove-none p (x ∷ query) h = ground (arith, remove-none p query)

-- The value of `ssl` before and after: one that is set stays, and `ssl=require` is set exactly where TLS is
-- needed.
abbrev pub Tls : Bool → Text → Query → Query → Type 0
Tls on_render host query new =
    ((value : Text) × (get (codes "ssl") query ≡ some value) × (get (codes "ssl") new ≡ some value))
    ⊎ ((get (codes "ssl") query ≡ none)
        × NeedsTls on_render host query
        × (get (codes "ssl") new ≡ some (codes "require")))
    ⊎ ((get (codes "ssl") query ≡ none)
        × (¬ NeedsTls on_render host query)
        × (get (codes "ssl") new ≡ none))

-- What `normalize_query` makes of a query.
pub record Normalized (on_render : Bool) (host : Text) (query new : Query) : Type 0 where
  -- asyncpg does not know `sslmode`.
  pub no_sslmode : get (codes "sslmode") new ≡ none
  pub tls : Tls on_render host query new
  pub others_kept :
      remove (has_name (codes "ssl")) (remove (has_name (codes "sslmode")) new)
      ≡ remove (has_name (codes "ssl")) (remove (has_name (codes "sslmode")) query)
  pub again : normalize_query on_render host new ≡ new

ssl_not_sslmode : text_eq ssl sslmode ≡ false
unfolding text_eq
ssl_not_sslmode = refl

exists-ssl :
    (query : Query)
    → exists (has_name ssl) (remove (has_name sslmode) query) ≡ exists (has_name ssl) query
exists-ssl query =
    exists-remove_ne (has_name ssl) (has_name sslmode) query
      (apart_names ssl sslmode ssl_not_sslmode)

stays :
    (on_render : Bool) (host : Text) (query : Query)
    → find (has_name sslmode) query ≡ none
    → (exists (has_name ssl) query ≡ false
        → (not (is_local host) && (on_render || is_render_host host)) ≡ false)
    → normalize_query on_render host query ≡ query
stays on_render host query gone near =
    let same = remove-none (has_name sslmode) query gone in
    elim (Bool-cases (exists (has_name ssl) query)) [
      | inl has ↦ rw (outcome on_render host query, same, has) refl
      | inr lacks ↦ rw (outcome on_render host query, same, lacks, gone, near lacks) refl
    ]

or_false : (a b : Bool) → (a || b) ≡ false → b ≡ false
or_false a b h = ground (arith, h)

find-append_hit :
    (p : Text × Text → Bool) (item : Text × Text) (query : Query)
    → exists p query ≡ false
    → p item ≡ true
    → find p (query ++ (item ∷ [])) ≡ some item
unfolding find exists
find-append_hit p item [] none_left h = rw h refl
find-append_hit p item (x ∷ query) none_left h = ground (arith, h, find-append_hit p item query)

remove-append_hit :
    (p : Text × Text → Bool) (item : Text × Text) (query : Query)
    → p item ≡ true
    → remove p (query ++ (item ∷ [])) ≡ remove p query
unfolding remove
remove-append_hit p item [] h = rw h refl
remove-append_hit p item (x ∷ query) h = ground (arith, remove-append_hit p item query h)

gone :
    (on_render : Bool) (host : Text) (query : Query)
    → find (has_name sslmode) (normalize_query on_render host query) ≡ none
gone on_render host query =
    let none_left = find-remove (has_name sslmode) (has_name sslmode) query (λ item hit. hit) in
    two_outcomes on_render host query (λ new. find (has_name sslmode) new ≡ none) (λ h. none_left)
      (λ h k. none_left)
      (λ h k.
        find-append_miss (has_name sslmode) (ssl, codes "require") (remove (has_name sslmode) query)
          ssl_not_sslmode
        ∙ none_left)

normalize_query-Tls :
    (on_render : Bool) (host : Text) (query : Query)
    → Tls on_render host query (normalize_query on_render host query)
normalize_query-Tls on_render host query =
    let needs = needs_iff on_render host query in
    let same =
      find-remove_ne (has_name ssl) (has_name sslmode) query
        (apart_names ssl sslmode ssl_not_sslmode) in
    two_outcomes on_render host query (Tls on_render host query)
      (λ has. elim (Option-cases (find (has_name ssl) query)) [
        | inl lost ↦
            let lacks = find-none_exists (has_name ssl) query lost in
            absurd (cc (has, lacks, exists-ssl query))
        | inr (item, there) ↦ inl (item.1, ap value_of there, ap value_of (same ∙ there))
      ])
      (λ lacks fine.
        let old = find-exists_false (has_name ssl) query (sym (exists-ssl query) ∙ lacks) in
        inr (
          inr (
            ap value_of old,
            (λ n. let must = needs.1 n in cc (fine, must)),
            ap value_of (same ∙ old),
          )))
      (λ lacks must.
        let old = find-exists_false (has_name ssl) query (sym (exists-ssl query) ∙ lacks) in
        inr (
          inl (
            ap value_of old,
            needs.0 must,
            ap value_of
                (find-append_hit (has_name ssl) (ssl, codes "require") _ lacks (text_eq_refl ssl)),
          )))

-- `normalize_query` leaves no `sslmode`, an `ssl` that was set with its value, and all other items. Where
-- no `ssl` was set, it sets `ssl=require` if the query had an `sslmode` that is neither empty nor
-- "disable", or if the host is none of the local names and either the service runs on Render or the host
-- has "render.com" in its name or "dpg-" in front; and it sets no `ssl` otherwise. What it returns it
-- leaves as it is.
pub normalize_query-Normalized :
    (on_render : Bool) (host : Text) (query : Query)
    → Normalized on_render host query (normalize_query on_render host query)
normalize_query-Normalized on_render host query = record {
  no_sslmode = ap value_of (gone on_render host query);
  tls = normalize_query-Tls on_render host query;
  others_kept =
      let left = find-remove (has_name sslmode) (has_name sslmode) query (λ item hit. hit) in
      let rest = ap (remove (has_name ssl)) (remove-none (has_name sslmode) _ left) in
      two_outcomes on_render host query
        (λ new.
          remove (has_name ssl) (remove (has_name sslmode) new)
          ≡ remove (has_name ssl) (remove (has_name sslmode) query))
        (λ h. rest) (λ h k. rest)
        (λ h k.
          ap (remove (has_name ssl)) (
            remove-none (has_name sslmode) _ (
              find-append_miss (has_name sslmode) (ssl, codes "require")
                (remove (has_name sslmode) query) ssl_not_sslmode
              ∙ left))
          ∙ remove-append_hit (has_name ssl) (ssl, codes "require") _ (text_eq_refl ssl));
  again =
      let left = find-remove (has_name sslmode) (has_name sslmode) query (λ item hit. hit) in
      two_outcomes on_render host query (λ new. normalize_query on_render host new ≡ new)
        (λ h. stays on_render host _ left (λ k. cc))
        (λ h k. stays on_render host _ left (λ _. or_false _ _ k))
        (λ h k.
          stays on_render host _
            (find-append_miss (has_name sslmode) (ssl, codes "require")
                (remove (has_name sslmode) query) ssl_not_sslmode
              ∙ left)
            (λ e. absurd (cc (exists-with_ssl (remove (has_name sslmode) query), e))));
}
