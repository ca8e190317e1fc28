-- ===== src/Config/Routing.antt =====
-- src/sir/config.py: the lookups in a validated configuration.
use stupid_inference_router.Prelude.{
  String, true, ◌≡◌, refl, subst, ◌↔◌, sym, ap, inl, inr, some, List, [], ◌∷◌, ◌++◌, is_some,
  str_eq, eq_iff, arith, In, Bool-cases,
}
use stupid_inference_router.Config.Scheduler.{ok}
use stupid_inference_router.Config.Models.{ModelConfig, served_names}
use stupid_inference_router.Config.App.{
  AppConfig, member_of, add_new, model_names, served_model_names, validate_app, model_by_name,
  model_by_served_name,
}

member_of-In : (x : String) (xs : List String) → member_of x xs ≡ true → In x xs
unfolding member_of
member_of-In x [] h = cc
member_of-In x (y ∷ ys) h = ground (arith, eq_iff y x, member_of-In x ys)

In-member_of : (x : String) (xs : List String) → In x xs → member_of x xs ≡ true
unfolding member_of
In-member_of x [] h = absurd h
In-member_of x (y ∷ ys) h = ground (arith, eq_iff y x, In-member_of x ys)

-- No text stands twice.
abbrev pub IsUnique : List String → Type 0
IsUnique [] = Unit
IsUnique (x ∷ xs) = (¬ In x xs) × IsUnique xs

add_new-fresh :
    (seen xs : List String)
    → is_some (add_new seen xs) ≡ true
    → (x : String) → In x seen
    → ¬ In x xs
unfolding add_new
add_new-fresh seen [] h x s i = i
add_new-fresh seen (y ∷ ys) h x s (inl e) = ground (arith, In-member_of x seen)
add_new-fresh seen (y ∷ ys) h x s (inr i) = add_new-fresh (y ∷ seen) ys (ground arith) x (inr s) i

add_new-IsUnique : (seen xs : List String) → is_some (add_new seen xs) ≡ true → IsUnique xs
unfolding add_new
add_new-IsUnique seen [] h = tt
add_new-IsUnique seen (x ∷ xs) h =
    let rest : is_some (add_new (x ∷ seen) xs) ≡ true = ground arith in
    (add_new-fresh (x ∷ seen) xs rest x (inl refl), add_new-IsUnique (x ∷ seen) xs rest)

In-append_left : (x : String) (xs ys : List String) → In x xs → In x (xs ++ ys)
In-append_left x [] ys h = absurd h
In-append_left x (y ∷ xs) ys (inl e) = inl e
In-append_left x (y ∷ xs) ys (inr h) = inr (In-append_left x xs ys h)

In-append_right : (x : String) (xs ys : List String) → In x ys → In x (xs ++ ys)
In-append_right x [] ys h = h
In-append_right x (y ∷ xs) ys h = inr (In-append_right x xs ys h)

IsUnique-append :
    (xs ys : List String) → IsUnique (xs ++ ys) → IsUnique ys × ((x : String) → In x xs → ¬ In x ys)
IsUnique-append [] ys u = (u, λ x h. absurd h)
IsUnique-append (x ∷ xs) ys (fresh, u) =
    let (rest, apart) = IsUnique-append xs ys u in (rest, separate apart)
  where
    separate : ((y : String) → In y xs → ¬ In y ys) → (y : String) → In y (x ∷ xs) → ¬ In y ys
    separate apart y (inl e) i = fresh (In-append_right x xs ys (subst (λ z. In z ys) e i))
    separate apart y (inr h) i = apart y h i

module _ {F : Type 0} where
  In-served :
      (models : List (ModelConfig F)) (m : ModelConfig F) (tag : String)
      → In m models
      → In tag (served_names m)
      → In tag (served_model_names models)
  unfolding served_model_names
  In-served [] m tag i t = absurd i
  In-served (x ∷ models) m tag (inl e) t =
      In-append_left tag (served_names x) (served_model_names models)
        (subst (λ y. In tag (served_names y)) e t)
  In-served (x ∷ models) m tag (inr i) t =
      In-append_right tag (served_names x) (served_model_names models) (In-served models m tag i t)

  routed :
      (models : List (ModelConfig F))
      → IsUnique (served_model_names models)
      → (m : ModelConfig F) (tag : String) → In m models
      → In tag (served_names m)
      → model_by_served_name models tag ≡ some m
  unfolding model_by_served_name served_model_names
  routed [] u m tag i t = absurd i
  routed (x ∷ models) u m tag (inl e) t =
      ground (arith, In-member_of tag (served_names x) (subst (λ y. In tag (served_names y)) e t))
  routed (x ∷ models) u m tag (inr i) t =
      let (rest, apart) = IsUnique-append (served_names x) (served_model_names models) u in
      elim (Bool-cases (member_of tag (served_names x))) [
        | inl here ↦
            absurd (apart tag (member_of-In tag (served_names x) here) (In-served models m tag i t))
        | inr other ↦ rw other (routed models rest m tag i t)
      ]

  found_routed :
      (models : List (ModelConfig F)) (m : ModelConfig F) (tag : String)
      → model_by_served_name models tag ≡ some m
      → In m models × In tag (served_names m)
  unfolding model_by_served_name
  found_routed [] m tag e = cc
  found_routed (x ∷ models) m tag e = elim (Bool-cases (member_of tag (served_names x))) [
    | inl here ↦
        let same : m ≡ x = ground arith in
        (
          inl same,
          subst (λ y. In tag (served_names y)) (sym same) (member_of-In tag (served_names x) here),
        )
    | inr other ↦ let (i, t) = found_routed models m tag (ground arith) in (inr i, t)
  ]

  In-names :
      (models : List (ModelConfig F)) (m : ModelConfig F)
      → In m models
      → In m.name (model_names models)
  In-names [] m i = absurd i
  In-names (x ∷ models) m (inl e) = inl (ap (λ y. y.name) e)
  In-names (x ∷ models) m (inr i) = inr (In-names models m i)

  named :
      (models : List (ModelConfig F))
      → IsUnique (model_names models)
      → (m : ModelConfig F) → In m models
      → model_by_name models m.name ≡ some m
  unfolding model_by_name
  named [] u m i = absurd i
  named (x ∷ models) u m (inl e) =
      ground (arith, eq_iff x.name m.name, ap (λ (y : ModelConfig F). y.name) e)
  named (x ∷ models) (fresh, u) m (inr i) = elim (Bool-cases (str_eq x.name m.name)) [
    | inl same ↦ absurd (
        fresh (
          subst (λ n. In n (model_names models)) (sym ((eq_iff x.name m.name).0 same))
            (In-names models m i)))
    | inr other ↦ rw other (named models u m i)
  ]

  validated-IsUnique :
      (c d : AppConfig F)
      → validate_app c ≡ ok d
      → (d ≡ c) × IsUnique (model_names c.models) × IsUnique (served_model_names c.models)
  unfolding validate_app
  validated-IsUnique c d e = (
    ground arith,
    add_new-IsUnique [] (model_names c.models) (ground arith),
    add_new-IsUnique [] (served_model_names c.models) (ground arith),
  )

  -- In a validated configuration a tag is routed to a model exactly if the model serves it, and every
  -- model is found under its name: neither lookup depends on the order of the models.
  pub validate_app-routes :
      (c d : AppConfig F) (m : ModelConfig F) (tag : String)
      → validate_app c ≡ ok d
      → ((model_by_served_name d.models tag ≡ some m) ↔ (In m d.models × In tag (served_names m)))
        × (In m d.models → model_by_name d.models m.name ≡ some m)
  validate_app-routes c d m tag e =
      let (same, names_unique, tags_unique) = validated-IsUnique c d e in
      rw same (
        (found_routed c.models m tag, λ h. routed c.models tags_unique m tag h.0 h.1),
        named c.models names_unique m,
      )
