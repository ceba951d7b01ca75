-- ===== src/Tests/States.antt =====
-- The global state on a database that is an association list.
use icsa_artifact.Base.{
  ℕ, zero, suc, ◌+◌, ◌≡◌, ◌≢◌, refl, sym, ◌∙◌, ap, some, [], ◌∷◌, arith, get_or, replicate,
  if◌then◌else◌,
}
use icsa_artifact.Text.{Text, bytes, text_eq}
use icsa_artifact.Contract.{Map, find, put}
use icsa_artifact.Contract.Store.{find-put}
use icsa_artifact.StateNode.{comma}
use icsa_artifact.StateNode.RoundTrip.{Plain}
use icsa_artifact.GlobalState.{KeyValue, get_value, insert}
use icsa_artifact.GlobalState.Tree.{cached, update_tree}
use icsa_artifact.GlobalState.Tree.Keep.{update_tree-keeps}
use icsa_artifact.GlobalState.Insert.{Digest}
use icsa_artifact.Parallel.Flush as Threads
use icsa_artifact.Parallel.Flush.Stores.{threads_flush-stores}
use mathlib.Core.List.{Permᴰ}
use icsa_artifact.GlobalState.Flush.{flush-stores, expected, insert_into, update_hashes, Apart}
use icsa_artifact.Serial.Run.{flush_map_to_state}

pub get_put :
    (k v j : Text) (db db' : Map)
    → some (put k v db) ≡ some db'
    → find j db' ≡ (if text_eq k j then some v else find j db)
get_put k v j db db' e = ground (arith, e, find-put k j v db)

abbrev pub list_db : KeyValue
list_db = record { Db = Map; get = find; put = λ k v db. some (put k v db); get-put = get_put }

-- 64 digits that show the first byte of a text.
abbrev pub digits : Text → Text
digits t = (get_or t 0 0 + 100) ∷ replicate 63 48

replicate-Plain : (n c : ℕ) → c ≢ comma → Plain (replicate n c)
replicate-Plain zero c ne = tt
replicate-Plain (suc n) c ne = (ne, replicate-Plain n c ne)

pub digits-Digest : Digest digits
digits-Digest = record {
  size = λ t. refl;
  plain = λ t. (omega arith, replicate-Plain 63 48 (omega arith));
}

-- Texts of one byte.
abbrev pub OneByte : Text → Type 0
OneByte t = (x : ℕ) × (t ≡ x ∷ [])

pub digits-Apart : Apart list_db digits OneByte
digits-Apart k j (x, e) (y, f) h =
    let first : get_or k 0 0 + 100 ≡ get_or j 0 0 + 100 = ap (λ t. get_or t 0 0) h in
    let same : x ≡ y = omega (arith, first, ap (λ t. get_or t 0 0) e, ap (λ t. get_or t 0 0) f) in
    e ∙ ap (λ z. z ∷ []) same ∙ sym f

abbrev tokens : Map
tokens = (bytes "a", bytes "x,y") ∷ (bytes "b", bytes "7") ∷ []

flush-stores_example :
    (db' : Map) × (flush_map_to_state
        (insert_into list_db digits)
        (update_hashes list_db digits)
        tokens
        (some [])
      ≡ some db')
    × ((j : Text)
        → OneByte j
        → get_value list_db digits j db' ≡ expected list_db digits tokens j [])
unfolding find text_eq
flush-stores_example =
    flush-stores list_db digits OneByte digits-Digest (λ k v db. (put k v db, refl)) digits-Apart
      tokens []
      ((_, refl), omega arith, omega arith, refl, ((_, refl), omega arith, omega arith, refl, tt))

update_tree-keeps_example :
    get_value list_db digits
      (bytes "a")
      (update_tree list_db digits
        (bytes "a b ")
        []
        (insert list_db digits (bytes "a") (bytes "30") []).1).1
    ≡ get_value list_db digits (bytes "a") (insert list_db digits (bytes "a") (bytes "30") []).1
unfolding cached
update_tree-keeps_example =
    update_tree-keeps list_db digits digits-Digest (bytes "a b ") []
      (insert list_db digits (bytes "a") (bytes "30") []).1 (λ k node h. ground (arith, h))
      (bytes "a")

threads_flush-stores_example :
    (db' : Map) × (Threads.flush_map_to_state
        (insert_into list_db digits)
        (update_hashes list_db digits)
        tokens
        2
        (0 ∷ 1 ∷ [])
        (some [])
      ≡ some db')
    × ((j : Text)
        → OneByte j
        → get_value list_db digits j db' ≡ expected list_db digits tokens j [])
unfolding find text_eq
threads_flush-stores_example =
    threads_flush-stores list_db digits OneByte digits-Digest (λ k v db. (put k v db, refl))
      digits-Apart tokens []
      ((_, refl), omega arith, omega arith, refl, ((_, refl), omega arith, omega arith, refl, tt)) 2
      (0 ∷ 1 ∷ []) (omega arith) (Permᴰ.swap refl refl)
