-- ===== src/Packages/Decoded.antt =====
-- decodePackages of packages_android.go keeps the maps consistent.
use sing_tun.Base.{
  ℕ, ◌≡◌, ◌≢◌, refl, ap, ◌∙◌, sym, Bool, true, false, ◌||◌, ◌&&◌, Option, none, some, List, [], ◌∷◌,
  ◌++◌, ◌==◌, if◌then◌else◌, arith, Bool-cases, inl, inr, ==_iff, Option-cases,
}
use sing_tun.Base.Bytes.{some_same}
use sing_tun.Base.Ends.{Ends, some-Ends, none-Ends, bind-Ends}
use sing_tun.Packages.{
  Text, text_eq, id_eq, Token, package_element, shared_user_element, other_token, decode_error,
  Maps, empty_maps, package_attrs, shared_user_attrs, names_of, add_package, add_shared_user,
  decode_tokens, decode_packages, package_by_id,
}

abbrev pub member : Text → List Text → Bool
member name [] = false
member name (x ∷ names) = text_eq x name || member name names

-- A package's id lists the package.
pub record Consistent (m : Maps) : Type 0 where
  pub listed :
      (name : Text) (id : ℕ)
      → m.id_by_package name ≡ some id
      → member name (names_of (m.package_by_id id)) ≡ true
  pub not_empty : (id : ℕ) → m.package_by_id id ≢ some []

member-append :
    (name x : Text) (names : List Text)
    → member name (names ++ (x ∷ [])) ≡ (member name names || text_eq x name)
member-append name x [] = ground arith
member-append name x (y ∷ names) = ground (arith, member-append name x names)

or_true : (b : Bool) → (b || true) ≡ true
or_true true = refl
or_true false = refl

id_eq_same : (i : ℕ) → id_eq i i ≡ true
id_eq_same i = ground arith

append_not_nil : (names : List Text) (x : Text) → (names ++ (x ∷ [])) ≢ []
append_not_nil [] x h = cc
append_not_nil (y ∷ names) x h = cc

add_package-Consistent :
    (m : Maps) (name : Text) (id : ℕ) → Consistent m → Consistent (add_package m name id)
unfolding add_package
add_package-Consistent m name id c = elim (Bool-cases (id == 0 && text_eq name [])) [
  | inl e ↦ rw e c
  | inr e ↦ rw e (record {
    listed = λ n i h. elim (Bool-cases (text_eq name n)) [
      | inl same ↦
          let at : i ≡ id = some_same _ _ (sym (rw same at h)) in
          rw (at, id_eq_same id, member-append n name (names_of (m.package_by_id id)), same)
            (or_true (member n (names_of (m.package_by_id id))))
      | inr other ↦
          let old = c.listed n i (rw other at h) in
          elim (Bool-cases (id_eq id i)) [
            | inl at ↦
                let id_i : id ≡ i = (==_iff id i).0 at in
                rw at (
                  member-append n name (names_of (m.package_by_id id))
                  ∙ ap (λ (b : Bool). b || text_eq name n)
                      (ap (λ (j : ℕ). member n (names_of (m.package_by_id j))) id_i ∙ old))
            | inr at ↦ rw at old
          ]
    ];
    not_empty = λ i h. elim (Bool-cases (id_eq id i)) [
      | inl at ↦ append_not_nil (names_of (m.package_by_id id)) name (some_same _ _ (rw at at h))
      | inr at ↦ c.not_empty i (rw at at h)
    ];
  })
]

add_shared_user-Consistent :
    (m : Maps) (name : Text) (id : ℕ) → Consistent m → Consistent (add_shared_user m name id)
unfolding add_shared_user
add_shared_user-Consistent m name id c = elim (Bool-cases (id == 0 && text_eq name [])) [
  | inl e ↦ rw e c
  | inr e ↦ rw e (record { listed = c.listed; not_empty = c.not_empty })
]

empty-Consistent : Consistent empty_maps
empty-Consistent = record { listed = λ n i h. cc; not_empty = λ i h. cc }

decode_tokens-Consistent :
    (m : Maps) (tokens : List Token) → Consistent m → Ends Consistent (decode_tokens m tokens)
unfolding decode_tokens
decode_tokens-Consistent m [] c = some-Ends Consistent m c
decode_tokens-Consistent m (package_element attrs ∷ tokens) c =
    bind-Ends Consistent (package_attrs [] 0 attrs) _ λ a.
      decode_tokens-Consistent (add_package m a.0 a.1) tokens (add_package-Consistent m a.0 a.1 c)
decode_tokens-Consistent m (shared_user_element attrs ∷ tokens) c =
    bind-Ends Consistent (shared_user_attrs [] 0 attrs) _ λ a.
      decode_tokens-Consistent (add_shared_user m a.0 a.1) tokens
        (add_shared_user-Consistent m a.0 a.1 c)
decode_tokens-Consistent m (other_token ∷ tokens) c = decode_tokens-Consistent m tokens c
decode_tokens-Consistent m (decode_error ∷ tokens) c = none-Ends Consistent

-- A package's id has a name, and lists the package.
abbrev pub Listed : Maps → Text → ℕ → Type 0
Listed m name id =
    (first : Text) × (package_by_id m id ≡ some first)
    × (member name (names_of (m.package_by_id id)) ≡ true)

first_name :
    (name : Text) (names : Option (List Text))
    → member name (names_of names) ≡ true
    → (first : Text) × (elim names [ none ↦ none | some [] ↦ none | some (x ∷ xs) ↦ some x ]
        ≡ some first)
first_name name none h = cc
first_name name (some []) h = cc
first_name name (some (x ∷ xs)) h = (x, refl)

-- decodePackages is all or nothing, and consistent: after an error the maps are what they were, and
-- after a success PackageByID finds a name for every id that a package has, and the id's list has the
-- package in it.
pub decode_packages_lem :
    (m : Maps) (tokens : List Token)
    → let (m', done) = decode_packages m tokens in
      if done
      then ((name : Text) → (id : ℕ) → m'.id_by_package name ≡ some id → Listed m' name id)
      else m' ≡ m
unfolding decode_packages package_by_id
decode_packages_lem m tokens = elim (Option-cases (decode_tokens empty_maps tokens)) [
  | inl e ↦ rw (e, decode_packages) refl
  | inr (m', e) ↦
      let c = decode_tokens-Consistent empty_maps tokens empty-Consistent m' e in
      rw (e, decode_packages)
        (λ name id h.
          let listed = c.listed name id h in
          let first = first_name name (m'.package_by_id id) listed in (first.0, first.1, listed))
]
