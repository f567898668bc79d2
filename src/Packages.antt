-- ===== src/Packages.antt =====
-- The package list of Android (packages_android.go): the maps, their lookups, and decodePackages on
-- the tokens that the XML decoder gives. A string is its bytes. The file, the watcher and the callback
-- are outside.
pub mod Decoded
mod Examples
use sing_tun.Base.{
  ℕ, suc, ◌+◌, ◌-◌, ◌*◌, ◌^◌, ◌≤◌, ◌<◌, ◌≡◌, ◌≢◌, refl, ap, ◌∙◌, sym, Bool, true, false, not, ◌||◌,
  ◌&&◌, Option, none, some, List, [], ◌∷◌, ◌++◌, length, ltb, leb, ◌==◌, if◌then◌else◌, arith,
  Bool-cases, inl, inr, ==_iff, Option-cases,
}
use sing_tun.Base.Bytes.{◌>>=◌, some_same}
use sing_tun.Base.Ends.{Ends, some-Ends, none-Ends, bind-Ends}
use sing_tun.Base.Net.{update}

abbrev pub Text : Type 0
Text = List ℕ

abbrev pub text_eq : Text → Text → Bool
text_eq [] [] = true
text_eq (x ∷ a) (y ∷ b) = x == y && text_eq a b
text_eq _ _ = false

abbrev pub id_eq : ℕ → ℕ → Bool
id_eq a b = a == b

-- strconv.ParseUint(s, 10, 32): digits only, at least one, and at most 2^32 - 1.
abbrev digits : ℕ → Text → Option ℕ
digits acc [] = some acc
digits acc (c ∷ s) =
    let rest = digits (acc * 10 + (c - 48)) s in
    if leb 48 c && leb c 57 && ltb (acc * 10 + (c - 48)) (2 ^ 32) then rest else none

unfoldable pub parse_uint : Text → Option ℕ
parse_uint [] = none
parse_uint (c ∷ s) = digits 0 (c ∷ s)

-- The attributes that decodePackages looks at; `user_id` stands for both userId and sharedUserId in a
-- package, and shared_user_id is ignored in a shared-user.
pub data Attr : Type 0 where
  name_attr user_id_attr shared_user_id_attr other_attr : Text → Attr

pub data Token : Type 0 where
  package_element : List Attr → Token
  shared_user_element : List Attr → Token
  other_token decode_error : Token

pub record Maps : Type 0 where
  pub id_by_package : Text → Option ℕ
  pub shared_by_package : Text → Option ℕ
  pub package_by_id : ℕ → Option (List Text)
  pub shared_by_id : ℕ → Option Text

abbrev pub empty_maps : Maps
empty_maps = record {
  id_by_package = λ n. none;
  shared_by_package = λ n. none;
  package_by_id = λ i. none;
  shared_by_id = λ i. none;
}

-- The loop over the attributes of a package: name and id so far.
unfoldable pub package_attrs : Text → ℕ → List Attr → Option (Text × ℕ)
package_attrs name id [] = some (name, id)
package_attrs name id (name_attr v ∷ attrs) = package_attrs v id attrs
package_attrs name id (user_id_attr v ∷ attrs) = parse_uint v >>= λ i. package_attrs name i attrs
package_attrs name id (shared_user_id_attr v ∷ attrs) =
    parse_uint v >>= λ i. package_attrs name i attrs
package_attrs name id (other_attr v ∷ attrs) = package_attrs name id attrs

unfoldable pub shared_user_attrs : Text → ℕ → List Attr → Option (Text × ℕ)
shared_user_attrs name id [] = some (name, id)
shared_user_attrs name id (name_attr v ∷ attrs) = shared_user_attrs v id attrs
shared_user_attrs name id (user_id_attr v ∷ attrs) =
    parse_uint v >>= λ i. shared_user_attrs name i attrs
shared_user_attrs name id (shared_user_id_attr v ∷ attrs) = shared_user_attrs name id attrs
shared_user_attrs name id (other_attr v ∷ attrs) = shared_user_attrs name id attrs

abbrev pub names_of : Option (List Text) → List Text
names_of none = []
names_of (some names) = names

unfoldable pub add_package : Maps → Text → ℕ → Maps
add_package m name id = if id == 0 && text_eq name [] then m else record m {
  id_by_package = update text_eq m.id_by_package name (some id);
  package_by_id =
      update id_eq m.package_by_id id (some (names_of (m.package_by_id id) ++ (name ∷ [])));
}

unfoldable pub add_shared_user : Maps → Text → ℕ → Maps
add_shared_user m name id = if id == 0 && text_eq name [] then m else record m {
  shared_by_package = update text_eq m.shared_by_package name (some id);
  shared_by_id = update id_eq m.shared_by_id id (some name);
}

-- The loop over the tokens up to io.EOF; `none` is an error of the decoder or of ParseUint.
unfoldable pub decode_tokens : Maps → List Token → Option Maps
decode_tokens m [] = some m
decode_tokens m (package_element attrs ∷ tokens) =
    package_attrs [] 0 attrs >>= λ a. decode_tokens (add_package m a.0 a.1) tokens
decode_tokens m (shared_user_element attrs ∷ tokens) =
    shared_user_attrs [] 0 attrs >>= λ a. decode_tokens (add_shared_user m a.0 a.1) tokens
decode_tokens m (other_token ∷ tokens) = decode_tokens m tokens
decode_tokens m (decode_error ∷ tokens) = none

-- decodePackages: the maps that the manager has afterwards, and whether it succeeded.
unfoldable pub decode_packages : Maps → List Token → Maps × Bool
decode_packages m tokens = elim (decode_tokens empty_maps tokens) [
  | none ↦ (m, false)
  | some m' ↦ (m', true)
]

-- PackageByID; the other lookups read a map.
unfoldable pub package_by_id : Maps → ℕ → Option Text
package_by_id m id = elim (m.package_by_id id) [
  | none ↦ none
  | some [] ↦ none
  | some (name ∷ names) ↦ some name
]
