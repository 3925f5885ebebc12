-- ===== src/Ingress/Auth.antt =====
-- src/ingress/proxy_auth.cpp: the table of proxy users.
pub mod Credentials
pub mod Table
use tcpquic_proxy.Base.{
  ℕ, Bool, true, false, not, ◌&&◌, ◌||◌, List, [], ◌∷◌, ◌==◌, if◌then◌else◌, Bytes, length,
  is_empty, bit_or, bit_xor, ltb, Option, none, some,
}
use tcpquic_proxy.Base.Text.{bytes_eq}

pub record User : Type 0 where
  pub username : Bytes
  pub password : Bytes

abbrev pub max_users : ℕ
max_users = 64

abbrev pub max_field_bytes : ℕ
max_field_bytes = 255

-- The loop of TqConstantTimeEquals, from the difference so far.
unfoldable pub difference : ℕ → Bytes → Bytes → ℕ
difference diff [] right = diff
difference diff (a ∷ left) [] = diff
difference diff (a ∷ left) (b ∷ right) = difference (bit_or diff (bit_xor a b)) left right

unfoldable pub constant_time_equals : Bytes → Bytes → Bool
unfolding difference
constant_time_equals left right =
    if not (length left == length right) then false else difference 0 left right == 0

abbrev pub enabled : List User → Bool
enabled users = not (is_empty users)

-- The loop over the users does not stop at a match.
unfoldable pub matched : Bool → Bytes → Bytes → List User → Bool
matched acc user pass [] = acc
matched acc user pass (u ∷ users) =
    matched (acc || (constant_time_equals u.username user && constant_time_equals u.password pass))
      user pass users

-- TqProxyAuthTable::Validate.
unfoldable pub validate : List User → Bytes → Bytes → Bool
validate users user pass =
    if not (enabled users)
    then true
    else if is_empty user || is_empty pass
    then false
    else matched false user pass users

-- The result of TqValidateProxyAuthUsers: the message, by its kind.
pub data UsersError : Type 0 where
  too_many_users empty_field long_field : UsersError
  duplicate_username : Bytes → UsersError

-- Whether std::set has the name.
unfoldable pub has_name : List Bytes → Bytes → Bool
has_name [] name = false
has_name (n ∷ names) name = bytes_eq n name || has_name names name

-- The loop over the users, with the names seen so far.
unfoldable pub check_users : List Bytes → List User → Option UsersError
check_users seen [] = none
check_users seen (u ∷ users) =
    let rest = check_users (u.username ∷ seen) users in
    if is_empty u.username || is_empty u.password
    then some empty_field
    else if ltb max_field_bytes (length u.username) || ltb max_field_bytes (length u.password)
    then some long_field
    else if has_name seen u.username
    then some (duplicate_username u.username)
    else rest

-- TqValidateProxyAuthUsers: none if it returns true.
unfoldable pub validate_users : List User → Option UsersError
validate_users users =
    if ltb max_users (length users) then some too_many_users else check_users [] users
