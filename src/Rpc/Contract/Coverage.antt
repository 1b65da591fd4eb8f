-- ===== src/Rpc/Contract/Coverage.antt =====
-- The table of scopes covers the methods that need authentication, and no others.
use modelo_man.Base.{
  String, Bool, true, ◌||◌, List, [], ◌∷◌, ◌≡◌, refl, ◌∙◌, contains, contains-append, lookup,
  is_found, if◌then◌else◌, arith,
}
use modelo_man.Rpc.Contract.{
  write_methods, private_read_methods, method_scopes, requires_authentication, required_scope,
}

keys_of : List (String × String) → List String
keys_of [] = []
keys_of ((k, v) ∷ m) = k ∷ keys_of m

is_found-lookup :
    (k : String) (m : List (String × String)) → is_found (lookup k m) ≡ contains (keys_of m) k
unfolding lookup keys_of
is_found-lookup k [] = refl
is_found-lookup k ((j, v) ∷ m) = let e = is_found-lookup k m in ground arith

or_flip : (a b : Bool) → (a || b) ≡ (if b then true else a)
or_flip a b = ground arith

-- A method needs a scope exactly where it needs authentication, whatever the method's name.
pub is_found-required_scope :
    (method : String) → is_found (required_scope method) ≡ requires_authentication method
unfolding required_scope requires_authentication keys_of
is_found-required_scope method =
    is_found-lookup method method_scopes
    ∙ contains-append private_read_methods write_methods method
    ∙ or_flip (contains private_read_methods method) (contains write_methods method)
