-- ===== src/Packages/Examples.antt =====
-- The theorem about decodePackages at a list of one package and a shared user.
use sing_tun.Base.{ℕ, ◌≡◌, List, [], ◌∷◌, some, if◌then◌else◌}
use sing_tun.Packages.{
  Text, Token, package_element, shared_user_element, other_token, name_attr, user_id_attr, Maps,
  empty_maps, decode_packages,
}
use sing_tun.Packages.Decoded.{Listed, decode_packages_lem}

-- A package "a" with the id 10 of the shared user "b".
abbrev tokens : List Token
tokens =
    package_element (name_attr (97 ∷ []) ∷ user_id_attr (49 ∷ 48 ∷ []) ∷ [])
    ∷ other_token
    ∷ shared_user_element (name_attr (98 ∷ []) ∷ user_id_attr (49 ∷ 48 ∷ []) ∷ [])
    ∷ []

abbrev decoded : Maps
decoded = (decode_packages empty_maps tokens).0

decode_packages_lem_example :
    if (decode_packages empty_maps tokens).1
    then ((name : Text) → (id : ℕ) → decoded.id_by_package name ≡ some id → Listed decoded name id)
    else decoded ≡ empty_maps
decode_packages_lem_example = decode_packages_lem empty_maps tokens
