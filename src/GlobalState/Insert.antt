-- ===== src/GlobalState/Insert.antt =====
-- What `insert` and `getValue` do together.
use icsa_artifact.Base.{
  ℕ, zero, suc, ◌+◌, ◌-◌, ◌≤◌, ◌<◌, ◌≡◌, ◌≢◌, refl, ◌∙◌, ap, Bool, true, false, Option, some,
  Option-cases, Bool-cases, inl, inr, [], arith, if◌then◌else◌, length, take, length-take,
}
use icsa_artifact.Text.{Text, bytes, text_eq, text_eq_ne}
use icsa_artifact.Dag.{contains}
use icsa_artifact.StateNode.{serialize_node}
use icsa_artifact.StateNode.RoundTrip.{Plain}
use icsa_artifact.GlobalState.{
  KeyValue, node_of, put_unchecked, get_node, get_value, add_child, link_path, insert,
}
use icsa_artifact.GlobalState.Value.{up_to_comma, value_written}

-- A hash is written with 64 digits, none of them a comma.
pub record Digest (compute_hash : Text → Text) : Type 0 where
  pub size : (t : Text) → length (compute_hash t) ≡ 64
  pub plain : (t : Text) → Plain (compute_hash t)

value_after :
    (same : Bool) (v hash : Text) (before : Option Text)
    → Plain hash
    → (node_of (
        if same
        then some (serialize_node (record { value = v; hash = hash; children = [] }))
        else before)).value
      ≡ (if same then up_to_comma v else (node_of before).value)
value_after true v hash before plain =
    value_written (record { value = v; hash = hash; children = [] }) plain
value_after false v hash before plain = refl

pub insert_answers :
    (kv : KeyValue) (compute_hash : Text → Text) (k v : Text) (db db' : kv.Db)
    → kv.put
        (compute_hash k)
        (serialize_node (record { value = v; hash = compute_hash v; children = [] }))
        db
      ≡ some db'
    → (insert kv compute_hash k v db).0 ≡ true
unfolding insert
insert_answers kv compute_hash k v db db' stored = rw (insert, stored) refl

module _ (kv : KeyValue) where
  pub get-put_unchecked :
      (k v j : Text) (db : kv.Db) → k ≢ j → kv.get j (put_unchecked kv k v db) ≡ kv.get j db
  get-put_unchecked k v j db ne = elim (Option-cases (kv.put k v db)) [
    | inl refused ↦ rw (put_unchecked, refused) refl
    | inr (db', stored) ↦
        rw (put_unchecked, stored) (kv.get-put k v j db db' stored ∙ rw (text_eq_ne k j ne) refl)
  ]

  module _ (compute_hash : Text → Text) where
    get-add_child :
        (key child j : Text) (db : kv.Db)
        → key ≢ j
        → kv.get j (add_child kv key child db) ≡ kv.get j db
    unfolding add_child
    get-add_child key child j db ne =
        elim (Bool-cases (contains (get_node kv key db).children child)) [
          | inl there ↦ rw (add_child, there) refl
          | inr new ↦ rw (add_child, new) (get-put_unchecked key _ j db ne)
        ]

    -- The prefixes of a hash are shorter than a hash.
    pub prefix-ne : (key j : Text) (i : ℕ) → i < length j → take i key ≢ j
    prefix-ne key j i h e = omega (arith, length-take i key, ap length e)

    get-link_path :
        (key j : Text) (i left : ℕ) (db : kv.Db)
        → i + left ≤ length j
        → kv.get j (link_path kv key i left db) ≡ kv.get j db
    unfolding link_path
    get-link_path key j i zero db h = refl
    get-link_path key j i (suc left) db h =
        get-link_path key j (suc i) left _ (omega arith)
        ∙ get-add_child (take i key) (take (suc i) key) j db (prefix-ne key j i (omega arith))

    pub root-ne : (j : Text) → length j ≡ 64 → bytes "rootNode" ≢ j
    root-ne j h e = omega (arith, ap length e)

    module _ (digest : Digest compute_hash) where
      get-insert :
          (k v j : Text) (db db' : kv.Db)
          → kv.put
              (compute_hash k)
              (serialize_node (record { value = v; hash = compute_hash v; children = [] }))
              db
            ≡ some db'
          → kv.get (compute_hash j) (insert kv compute_hash k v db).1 ≡ kv.get (compute_hash j) db'
      unfolding insert
      get-insert k v j db db' stored =
          rw (insert, stored)
            (get-link_path (compute_hash k) (compute_hash j) 1 (length (compute_hash k) - 1) _
                (omega (arith, digest.size k, digest.size j))
              ∙ get-add_child (bytes "rootNode") (take 1 (compute_hash k)) (compute_hash j) db'
                  (root-ne (compute_hash j) (digest.size j)))

      -- With hashes of 64 digits and no comma: if `insert` answers `true`, `getValue` gives the value
      -- up to its first comma for every key with the same hash, and for every other key what it gave
      -- before; if it answers `false`, the database is as it was.
      pub get_value-insert :
          (k v : Text) (db : kv.Db)
          → let (stored, db') = insert kv compute_hash k v db in
            (stored ≡ true
              → (j : Text)
              → get_value kv compute_hash j db' ≡ (
                  if text_eq (compute_hash k) (compute_hash j)
                  then up_to_comma v
                  else get_value kv compute_hash j db))
            × (stored ≡ false → db' ≡ db)
      unfolding insert get_value get_node
      get_value-insert k v db =
          elim (Option-cases (
            kv.put (compute_hash k)
              (serialize_node (record { value = v; hash = compute_hash v; children = [] })) db)) [
                | inl refused ↦ rw (insert, refused) (λ e. ground (arith, e), λ e. refl)
                | inr (db', stored) ↦ (
                  λ e j.
                      ap (λ o. (node_of o).value)
                        (get-insert k v j db db' stored
                          ∙ kv.get-put (compute_hash k)
                              (serialize_node
                                (record { value = v; hash = compute_hash v; children = [] }))
                              (compute_hash j) db db' stored)
                      ∙ value_after (text_eq (compute_hash k) (compute_hash j)) v (compute_hash v)
                          (kv.get (compute_hash j) db) (digest.plain v),
                  λ e. ground (arith, insert_answers kv compute_hash k v db db' stored, e),
                )
              ]
