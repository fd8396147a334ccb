-- ===== src/Base/Keys.antt =====
-- Texts as keys: the test `===` on texts and on bytes, and objects with texts for keys.
use sur_protocol_solana.Base.Tests.{◌==◌, if◌then◌else◌}
use sur_protocol_solana.Base.Lists.{Bytes, utf8}
use Prim.Native.String.{String}
use mathlib.Core.Path.{◌≡◌, refl}
use mathlib.Core.Bool.{Bool, true, false, ◌&&◌}
use mathlib.Core.Option.{Option, none, some}
use mathlib.Core.List.{List, [], ◌∷◌}
use native.Mathlib.Omega.{arith}

abbrev pub bytes_eq : Bytes → Bytes → Bool
bytes_eq [] [] = true
bytes_eq (x ∷ xs) (y ∷ ys) = x == y && bytes_eq xs ys
bytes_eq _ _ = false

pub bytes_eq_refl : (xs : Bytes) → bytes_eq xs xs ≡ true
bytes_eq_refl [] = refl
bytes_eq_refl (x ∷ xs) = ground (arith, bytes_eq_refl xs)

pub bytes_eq→≡ : (xs ys : Bytes) → bytes_eq xs ys ≡ true → xs ≡ ys
bytes_eq→≡ [] [] h = refl
bytes_eq→≡ [] (y ∷ ys) h = cc
bytes_eq→≡ (x ∷ xs) [] h = cc
bytes_eq→≡ (x ∷ xs) (y ∷ ys) h = ground (arith, bytes_eq→≡ xs ys)

-- `a === b`
unfoldable pub string_eq : String → String → Bool
string_eq a b = bytes_eq (utf8 a) (utf8 b)

pub string_eq_refl : (s : String) → string_eq s s ≡ true
unfolding string_eq
string_eq_refl s = bytes_eq_refl (utf8 s)

module _ {ℓ} {V : Type ℓ} where
  -- `object[key] = value`
  abbrev pub set_key : String → V → List (String × V) → List (String × V)
  set_key k v [] = (k, v) ∷ []
  set_key k v ((m, w) ∷ o) =
      let rest = set_key k v o in if string_eq m k then (m, v) ∷ o else (m, w) ∷ rest

  -- `object[key]`, `undefined` where the key is missing.
  abbrev pub get_key : String → List (String × V) → Option V
  get_key k [] = none
  get_key k ((m, w) ∷ o) = let rest = get_key k o in if string_eq m k then some w else rest

  pub get_key-set_key :
      (k : String) (v : V) (o : List (String × V)) → get_key k (set_key k v o) ≡ some v
  unfolding string_eq
  get_key-set_key k v [] = ground (arith, bytes_eq_refl (utf8 k))
  get_key-set_key k v ((m, w) ∷ o) = ground (arith, get_key-set_key k v o)

  pub get_key-set_key_other :
      (k n : String) (v : V) (o : List (String × V))
      → string_eq k n ≡ false
      → get_key n (set_key k v o) ≡ get_key n o
  unfolding string_eq
  get_key-set_key_other k n v [] h = ground arith
  get_key-set_key_other k n v ((m, w) ∷ o) h =
      ground (arith, get_key-set_key_other k n v o h, bytes_eq→≡ (utf8 m) (utf8 k))
