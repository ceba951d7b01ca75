-- ===== src/Parallel/Flush/Stores.antt =====
-- What the threads of `flushMapToState` leave in the global state.
use icsa_artifact.Base.{ℕ, ◌<◌, ◌≡◌, refl, sym, ◌∙◌, ap, subst, some, List, [], ◌∷◌, ◌++◌, arith}
use mathlib.Core.List.{Permᴰ}
use mathlib.Core.List.Permᴰ
use icsa_artifact.Text.{Text, text_eq_iff}
use icsa_artifact.Contract.{Map, find}
use icsa_artifact.Serial.Run.{insert_all}
use icsa_artifact.GlobalState.{KeyValue, get_value}
use icsa_artifact.GlobalState.Insert.{Digest}
use icsa_artifact.GlobalState.Flush.{
  Keys, Accepting, Apart, expected, insert_into, update_hashes, insert_all-stores, update_all-keeps,
}
use icsa_artifact.Parallel.Flush.{flush_map_to_state, run_threads}
use icsa_artifact.Parallel.Flush.Pieces.{piece, pieces, insert_range-take, pieces-Permᴰ-entries}
use icsa_artifact.Parallel.Threads.{countdown}

module _ {S : Type 0} (insert : Text → Text → S → S) (update_parent_hashes : Text → S → S) where
  insert_all-append :
      (xs ys : Map) (state : S)
      → insert_all insert update_parent_hashes (xs ++ ys) state
        ≡ insert_all insert update_parent_hashes ys
            (insert_all insert update_parent_hashes xs state)
  unfolding insert_all
  insert_all-append [] ys state = refl
  insert_all-append ((k, v) ∷ xs) ys state = insert_all-append xs ys (insert k v state)

  run_threads-pieces :
      (entries : Map) (threads : ℕ) (order : List ℕ) (state : S)
      → run_threads insert update_parent_hashes entries threads order state
        ≡ insert_all insert update_parent_hashes (pieces entries threads order) state
  unfolding run_threads insert_all
  run_threads-pieces entries threads [] state = refl
  run_threads-pieces entries threads (t ∷ ts) state =
      run_threads-pieces entries threads ts _
      ∙ ap (insert_all insert update_parent_hashes (pieces entries threads ts))
          (insert_range-take entries threads insert update_parent_hashes _ _ state)
      ∙ sym (insert_all-append (piece entries threads t) (pieces entries threads ts) state)

module _ (InUse : Text → Type 0) where
  -- The order of different keys changes nothing that is found.
  record SameMap (xs ys : Map) : Type 0 where
    keys : Keys InUse ys
    found : (j : Text) → find j ys ≡ find j xs

  cons_same :
      (a : Text × Text) (xs ys : Map)
      → Keys InUse (a ∷ xs)
      → (Keys InUse xs → SameMap xs ys)
      → SameMap (a ∷ xs) (a ∷ ys)
  unfolding find
  cons_same (k, v) xs ys (used, some_byte, short, new, keys) same =
      let s = same keys in
      record {
        keys = (used, some_byte, short, s.found k ∙ new, s.keys);
        found = λ j. ground (arith, s.found j);
      }

  swap_same :
      (a b : Text × Text) (xs : Map) → Keys InUse (a ∷ b ∷ xs) → SameMap (a ∷ b ∷ xs) (b ∷ a ∷ xs)
  unfolding find
  swap_same (k, v) (j, u) xs
        (used, some_byte, short, new, (used', some_byte', short', new', keys)) =
      record {
        keys = (
          used',
          some_byte',
          short',
          ground (arith, text_eq_iff k j, text_eq_iff j k),
          (used, some_byte, short, ground arith, keys),
        );
        found = λ i. ground (arith, text_eq_iff k i, text_eq_iff j i, text_eq_iff j k);
      }

  SameMap-Permᴰ : {xs ys : Map} → Permᴰ xs ys → Keys InUse xs → SameMap xs ys
  SameMap-Permᴰ Permᴰ.nil keys = record { keys = keys; found = λ j. refl }
  SameMap-Permᴰ (Permᴰ.cons {a} {b} {l₁} {l₂} e p) keys =
      subst (λ c. SameMap (a ∷ l₁) (c ∷ l₂)) e (cons_same a l₁ l₂ keys (SameMap-Permᴰ p))
  SameMap-Permᴰ (Permᴰ.swap {a} {b} {a'} {b'} {l} e e') keys =
      subst (λ c. SameMap (a ∷ b ∷ l) (c ∷ b' ∷ l)) e'
        (subst (λ c. SameMap (a ∷ b ∷ l) (b ∷ c ∷ l)) e (swap_same a b l keys))
  SameMap-Permᴰ (Permᴰ.trans p q) keys =
      let s = SameMap-Permᴰ p keys in
      let s' = SameMap-Permᴰ q s.keys in
      record { keys = s'.keys; found = λ j. s'.found j ∙ s.found j }

-- With hashes of 64 digits and no comma, different for different keys in use, a database that takes
-- every `Put`, a map of different keys in use that have between 1 and 64 bytes, and at least one
-- thread, each run once in any order: `flushMapToState` is defined, and then `getValue` gives, for
-- each key of the map, the map's value up to its first comma, and for every other key in use what it
-- gave before.
pub threads_flush-stores :
    (kv : KeyValue) (compute_hash : Text → Text) (InUse : Text → Type 0)
    → Digest compute_hash
    → Accepting kv compute_hash
    → Apart kv compute_hash InUse
    → (m : Map) (db : kv.Db) → Keys InUse m
    → (threads : ℕ) (order : List ℕ) → 0 < threads
    → Permᴰ order (countdown threads)
    → (db' : kv.Db) × (flush_map_to_state
          (insert_into kv compute_hash)
          (update_hashes kv compute_hash)
          m
          threads
          order
          (some db)
        ≡ some db')
      × ((j : Text) → InUse j → get_value kv compute_hash j db' ≡ expected kv compute_hash m j db)
unfolding flush_map_to_state
threads_flush-stores kv compute_hash InUse digest accepting apart m db keys threads order
      some_thread each_once =
    let same =
      SameMap-Permᴰ InUse (Permᴰ.symm (pieces-Permᴰ-entries m threads order some_thread each_once))
        keys in
    let (db₁, stored, values) =
      insert_all-stores kv compute_hash InUse digest accepting apart (pieces m threads order) db
        same.keys in
    let (db', updated, kept) =
      update_all-keeps kv compute_hash InUse digest accepting apart m db₁ keys in
    (
      db',
      rw
          (
            flush_map_to_state,
            run_threads-pieces (insert_into kv compute_hash) (update_hashes kv compute_hash) m
                threads order (some db),
            stored,
          )
          updated,
      λ j uj. kept j ∙ values j uj ∙ rw (expected, same.found j) refl,
    )
