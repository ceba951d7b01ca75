-- ===== src/GlobalState/Flush.antt =====
-- The map of a block written to the global state.
use icsa_artifact.Base.{
  ◌≤◌, ◌<◌, ◌≡◌, refl, sym, ◌∙◌, ap, Option, none, some, [], ◌∷◌, arith, length, Bool-cases,
  Option-cases, inl, inr,
}
use icsa_artifact.Text.{Text, text_eq, text_eq_iff, text_eq_ne}
use icsa_artifact.Contract.{Map, find}
use icsa_artifact.GlobalState.{KeyValue, get_value, insert, update_parent_hashes}
use icsa_artifact.GlobalState.Value.{up_to_comma}
use icsa_artifact.GlobalState.Insert.{Digest, get_value-insert, insert_answers}
use icsa_artifact.GlobalState.Hashes.{update_parent_hashes-keeps}
use icsa_artifact.Serial.Run.{insert_all, update_all, flush_map_to_state}

-- Keys in use that are not empty, have at most 64 bytes, and differ from the keys after them.
abbrev pub Keys : (Text → Type 0) → Map → Type 0
Keys InUse [] = Unit
Keys InUse ((k, v) ∷ m) =
    InUse k × (0 < length k) × (length k ≤ 64) × (find k m ≡ none) × Keys InUse m

module _ (kv : KeyValue) (compute_hash : Text → Text) where
  -- The global state of the scheduler; `none` once the behaviour is undefined.
  abbrev pub insert_into : Text → Text → Option kv.Db → Option kv.Db
  insert_into key value none = none
  insert_into key value (some db) = some (insert kv compute_hash key value db).1

  abbrev pub update_hashes : Text → Option kv.Db → Option kv.Db
  update_hashes key none = none
  update_hashes key (some db) = update_parent_hashes kv compute_hash key db

  -- The database takes every `Put`.
  abbrev pub Accepting : Type 0
  Accepting = (k v : Text) (db : kv.Db) → (db' : kv.Db) × (kv.put k v db ≡ some db')

  -- Different keys in use have different hashes.
  abbrev pub Apart : (Text → Type 0) → Type 0
  Apart InUse = (k j : Text) → InUse k → InUse j → compute_hash k ≡ compute_hash j → k ≡ j

  -- What `getValue` is to give for a key: the map's value up to its first comma, or else what it gave
  -- before.
  abbrev pub expected : Map → Text → kv.Db → Text
  expected m j db = elim (find j m) [
    | some v ↦ up_to_comma v
    | none ↦ get_value kv compute_hash j db
  ]

  module _ (InUse : Text → Type 0) (digest : Digest compute_hash) (accepting : Accepting)
      (apart : Apart InUse) where
    same_hash :
        (k j : Text) → InUse k → InUse j → text_eq (compute_hash k) (compute_hash j) ≡ text_eq k j
    same_hash k j uk uj = elim (Bool-cases (text_eq k j)) [
      | inl same ↦ rw same (
          (text_eq_iff (compute_hash k) (compute_hash j)).1
            (ap compute_hash ((text_eq_iff k j).0 same)))
      | inr other ↦
          text_eq_ne (compute_hash k) (compute_hash j)
            (λ e. ground (arith, other, (text_eq_iff k j).1 (apart k j uk uj e)))
          ∙ sym other
    ]

    -- The first entry of a map, and the rest stored after it.
    expected_step :
        (k v j : Text) (m : Map) (db : kv.Db)
        → InUse k
        → InUse j
        → find k m ≡ none
        → expected m j (insert kv compute_hash k v db).1 ≡ expected ((k, v) ∷ m) j db
    unfolding find
    expected_step k v j m db uk uj new =
        let (_, stored) = accepting (compute_hash k) _ db in
        let now =
          (get_value-insert kv compute_hash digest k v db).0
            (insert_answers kv compute_hash k v db _ stored) j in
        elim (Option-cases (find j m)) [
          | inr (v', there) ↦ elim (Bool-cases (text_eq k j)) [
            | inl same ↦ ground (arith, new, there, (text_eq_iff k j).0 same)
            | inr other ↦ rw (expected, find, there, other) refl
          ]
          | inl none' ↦ elim (Bool-cases (text_eq k j)) [
            | inl same ↦
                rw (expected, find, none', same) (now ∙ rw (same_hash k j uk uj, same) refl)
            | inr other ↦
                rw (expected, find, none', other) (now ∙ rw (same_hash k j uk uj, other) refl)
          ]
        ]

    pub insert_all-stores :
        (m : Map) (db : kv.Db)
        → Keys InUse m
        → (db' : kv.Db) × (insert_all insert_into update_hashes m (some db) ≡ some db')
          × ((j : Text) → InUse j → get_value kv compute_hash j db' ≡ expected m j db)
    unfolding insert_all find
    insert_all-stores [] db keys = (db, refl, λ j uj. refl)
    insert_all-stores ((k, v) ∷ m) db (uk, some_byte, short, new, keys) =
        let (db', runs, values) = insert_all-stores m (insert kv compute_hash k v db).1 keys in
        (db', runs, λ j uj. values j uj ∙ expected_step k v j m db uk uj new)

    pub update_all-keeps :
        (m : Map) (db : kv.Db)
        → Keys InUse m
        → (db' : kv.Db) × (update_all insert_into update_hashes m (some db) ≡ some db')
          × ((j : Text) → get_value kv compute_hash j db' ≡ get_value kv compute_hash j db)
    unfolding update_all
    update_all-keeps [] db keys = (db, refl, λ j. refl)
    update_all-keeps ((k, v) ∷ m) db (uk, some_byte, short, new, keys) =
        let (db₁, updated, kept) =
          update_parent_hashes-keeps kv compute_hash digest k db some_byte short in
        let (db', runs, values) = update_all-keeps m db₁ keys in
        (db', rw (update_all, updated) runs, λ j. values j ∙ kept j)

    -- With hashes of 64 digits and no comma, different for different keys in use, a database that takes
    -- every `Put`, and a map of different keys in use that have between 1 and 64 bytes:
    -- `flushMapToState` is defined, and then `getValue` gives, for each key of the map, the map's value
    -- up to its first comma, and for every other key in use what it gave before.
    pub flush-stores :
        (m : Map) (db : kv.Db)
        → Keys InUse m
        → (db' : kv.Db) × (flush_map_to_state insert_into update_hashes m (some db) ≡ some db')
          × ((j : Text) → InUse j → get_value kv compute_hash j db' ≡ expected m j db)
    unfolding flush_map_to_state
    flush-stores m db keys =
        let (db₁, stored, values) = insert_all-stores m db keys in
        let (db', updated, kept) = update_all-keeps m db₁ keys in
        (db', rw (flush_map_to_state, stored) updated, λ j uj. kept j ∙ values j uj)
