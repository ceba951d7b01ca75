-- ===== src/Contract.antt =====
-- What the contract processors share (smartContracts/*/): the map of loaded values
-- (`tbb::concurrent_hash_map<string, string>`), calls that may throw, and the numbers that the
-- wallet and the voting contract keep in the map.
pub mod Store
pub mod Number
pub mod Atomic
pub mod Settle
use icsa_artifact.Base.{
  ℕ, ◌≡◌, refl, Bool, true, false, Option, none, some, List, [], ◌∷◌, arith, if◌then◌else◌,
}
use icsa_artifact.Base.Int.{ℤ, pos, is_int32}
use icsa_artifact.Text.{Text, text_eq}
use icsa_artifact.Text.Decimal.{stoi, to_string}

abbrev pub Map : Type 0
Map = List (Text × Text)

-- `find`: the value under a key.
unfoldable pub find : Text → Map → Option Text
find k [] = none
find k ((j, v) ∷ m) = if text_eq j k then some v else find k m

-- `insert(acc, k)` followed by `acc->second = v`: the key is added, or its value replaced.
unfoldable pub put : Text → Text → Map → Map
put k v [] = (k, v) ∷ []
put k v ((j, w) ∷ m) = if text_eq j k then (j, v) ∷ m else (j, w) ∷ put k v m

-- How a call ends: a value, a C++ exception, or signed overflow, which is undefined behaviour.
pub data Outcome {ℓ} (A : Type ℓ) : Type ℓ where
  ok : A → Outcome A
  threw undefined : Outcome A

-- A call on the map. What it wrote before it threw stays written.
abbrev pub M : Type 0 → Type 0
M A = Map → Outcome A × Map

abbrev pub bind : {A B : Type 0} → Outcome A × Map → (A → M B) → Outcome B × Map
bind (ok a, m) f = f a m
bind (threw, m) f = (threw, m)
bind (undefined, m) f = (undefined, m)

infixl 5 ◌>>=◌ ◌>>◌
unfoldable pub ◌>>=◌ : {A B : Type 0} → M A → (A → M B) → M B
◌>>=◌ c f m = bind (c m) f

abbrev pub ◌>>◌ : {B : Type 0} → M (Unit {0}) → M B → M B
c >> k = c >>= λ _. k

unfoldable pub return : {A : Type 0} → A → M A
return a m = (ok a, m)

-- A library call whose failure is an exception.
unfoldable pub attempt : {A : Type 0} → Option A → M A
attempt none m = (threw, m)
attempt (some a) m = (ok a, m)

-- The result of `int` arithmetic.
unfoldable pub int : ℤ → M ℤ
int v m = if is_int32 v then (ok v, m) else (undefined, m)

unfoldable pub write : Text → Text → M (Unit {0})
write k v m = (ok tt, put k v m)

-- `catch (const std::exception&) { return false; }`
abbrev pub catch_false : Outcome Bool × Map → Outcome Bool × Map
catch_false (ok b, m) = (ok b, m)
catch_false (threw, m) = (ok false, m)
catch_false (undefined, m) = (undefined, m)

-- The number that a text from the global state stands for; no text stands for 0.
abbrev pub number_of : Text → Option ℤ
number_of [] = some (pos 0)
number_of (c ∷ cs) = stoi (c ∷ cs)

-- What the contracts ask of the global state: its `getValue`.
module _ (get_value : Text → Text) where
  -- `getOrLoadBalance` of the wallet and `getOrLoadVoteCount` of the voting contract: the number in
  -- the map, or else the one in the global state, which is then put into the map.
  load_absent : Text → M ℤ
  load_absent name = do
    balance ← attempt (number_of (get_value name))
    write name (to_string balance)
    return balance

  unfoldable pub load_int : Text → M ℤ
  unfolding load_absent ◌>>=◌ attempt write return
  load_int name m = elim (find name m) [ some t ↦ attempt (stoi t) m | none ↦ load_absent name m ]
