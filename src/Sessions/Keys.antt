-- ===== src/Sessions/Keys.antt =====
-- The keys of the maps of packages/terminal-session/src/index.ts.
use cashblocks.Prelude.{
  suc, ◌≡◌, ◌≤◌, refl, ap, some, List, [], ◌∷◌, String, str_eq, eq_iff, if◌then◌else◌, length,
  arith,
}
use cashblocks.Prelude.Text.{lookup, insert, remove}

abbrev pub keys : {V : Type 0} → List (String × V) → List String
keys [] = []
keys ((k, v) ∷ m) = k ∷ keys m

unfoldable pub with_key : String → List String → List String
with_key k [] = k ∷ []
with_key k (j ∷ ks) = if str_eq j k then k ∷ ks else j ∷ with_key k ks

unfoldable pub without_key : String → List String → List String
without_key k [] = []
without_key k (j ∷ ks) = let rest = without_key k ks in if str_eq j k then rest else j ∷ rest

module _ {V : Type 0} where
  pub length-keys : (m : List (String × V)) → length (keys m) ≡ length m
  length-keys [] = refl
  length-keys ((k, v) ∷ m) = ap suc (length-keys m)

  pub keys-insert :
      (k : String) (v : V) (m : List (String × V)) → keys (insert k v m) ≡ with_key k (keys m)
  unfolding insert with_key
  keys-insert k v [] = refl
  keys-insert k v ((j, w) ∷ m) = ground (arith, keys-insert k v m)

  pub keys-remove :
      (k : String) (m : List (String × V)) → keys (remove k m) ≡ without_key k (keys m)
  unfolding remove without_key
  keys-remove k [] = refl
  keys-remove k ((j, w) ∷ m) = ground (arith, keys-remove k m)

  -- A key that is there is not added again.
  pub with_key-present :
      (k : String) (v : V) (m : List (String × V))
      → lookup k m ≡ some v
      → with_key k (keys m) ≡ keys m
  unfolding lookup with_key
  with_key-present k v [] h = cc
  with_key-present k v ((j, w) ∷ m) h = ground (arith, eq_iff j k, with_key-present k v m)

pub length-with_key : (k : String) (ks : List String) → length (with_key k ks) ≤ suc (length ks)
unfolding with_key
length-with_key k [] = omega arith
length-with_key k (j ∷ ks) = let less = length-with_key k ks in ground (arith, less)

pub length-without_key : (k : String) (ks : List String) → length (without_key k ks) ≤ length ks
unfolding without_key
length-without_key k [] = omega arith
length-without_key k (j ∷ ks) = let less = length-without_key k ks in ground (arith, less)
