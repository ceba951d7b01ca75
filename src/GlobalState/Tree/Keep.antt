-- ===== src/GlobalState/Tree/Keep.antt =====
-- What `updateTree` leaves alone.
use icsa_artifact.Base.{
  ℕ, zero, suc, ◌≡◌, refl, sym, ◌∙◌, ap, subst, Option, none, some, Option-cases, Bool-cases, inl,
  inr, List, [], ◌∷◌, ◌++◌, if◌then◌else◌, length, take,
}
use icsa_artifact.Text.{Text, bytes, text_eq, text_eq_iff}
use icsa_artifact.Commerce.{words}
use icsa_artifact.Dag.{contains}
use icsa_artifact.StateNode.{Node, serialize_node}
use icsa_artifact.StateNode.RoundTrip.{Plain}
use icsa_artifact.GlobalState.{KeyValue, node_of, put_unchecked, get_node, get_value, rehash_root}
use icsa_artifact.GlobalState.Value.{up_to_comma-Plain, value_written, value_Plain}
use icsa_artifact.GlobalState.Insert.{Digest}
use icsa_artifact.GlobalState.Tree.{
  cached, Update, get_cached_node, cached_hashes, store_hash, visit, climb, climb_all, update_tree,
}

node_of-Plain : (o : Option Text) → Plain (node_of o).value
node_of-Plain none = tt
node_of-Plain (some text) = value_Plain text

value_inj : {m n : Node} → some m ≡ some n → n.value ≡ m.value
value_inj {m} h = sym (ap (λ o. elim o as (λ _. Text) [ none ↦ [] | some x ↦ x.value ]) h)

module _ (kv : KeyValue) (compute_hash : Text → Text) where
  -- The same value under every key.
  abbrev pub SameValues : kv.Db → kv.Db → Type 0
  SameValues db db' = (k : Text) → (get_node kv k db').value ≡ (get_node kv k db).value

  -- What is in the cache has the values of the database.
  abbrev pub Current : List (Text × Node) → kv.Db → Type 0
  Current cache db =
      (k : Text) (node : Node) → cached k cache ≡ some node → node.value ≡ (get_node kv k db).value

  -- A node written with the value that it has.
  SameValues-put :
      (key : Text) (node : Node) (db : kv.Db)
      → Plain node.hash
      → node.value ≡ (get_node kv key db).value
      → SameValues db (put_unchecked kv key (serialize_node node) db)
  unfolding get_node
  SameValues-put key node db plain same k =
      elim (Option-cases (kv.put key (serialize_node node) db)) [
        | inl refused ↦ rw (put_unchecked, refused) refl
        | inr (db', stored) ↦
            rw (put_unchecked, stored)
              (ap (λ o. (node_of o).value) (kv.get-put key (serialize_node node) k db db' stored)
                ∙ elim (Bool-cases (text_eq key k)) [
                  | inl here ↦
                      rw (here, ← (text_eq_iff key k).0 here)
                        (value_written node plain
                          ∙ up_to_comma-Plain node.value
                              (subst Plain (sym same) (node_of-Plain (kv.get key db)))
                          ∙ same)
                  | inr other ↦ rw other refl
                ])
      ]

  -- A step of the update that keeps the cache current and every value.
  record Keeps (u u' : Update kv) : Type 0 where
    pub current : Current u'.cache u'.db
    pub same : SameValues u.db u'.db

  Current-extend :
      (key : Text) (cache : List (Text × Node)) (db : kv.Db)
      → Current cache db
      → Current ((key, get_node kv key db) ∷ cache) db
  unfolding cached
  Current-extend key cache db c k node h = elim (Bool-cases (text_eq key k)) [
    | inl here ↦
        value_inj (ap (λ b. if b then some (get_node kv key db) else cached k cache) (sym here) ∙ h)
        ∙ ap (λ t. (get_node kv t db).value) ((text_eq_iff key k).0 here)
    | inr other ↦
        c k node (ap (λ b. if b then some (get_node kv key db) else cached k cache) (sym other) ∙ h)
  ]

  Keeps-get :
      (key : Text) (u : Update kv)
      → Current u.cache u.db
      → ((get_cached_node kv compute_hash key u).0.value ≡ (get_node kv key u.db).value)
        × Keeps u (get_cached_node kv compute_hash key u).1
  unfolding get_cached_node
  Keeps-get key u c = elim (Option-cases (cached key u.cache)) [
    | inr (node, there) ↦
        rw (get_cached_node, there) (c key node there, record { current = c; same = λ k. refl })
    | inl new ↦
        rw (get_cached_node, new)
          (refl, record { current = Current-extend key u.cache u.db c; same = λ k. refl })
  ]

  Keeps-trans : {u v w : Update kv} → Keeps u v → Keeps v w → Keeps u w
  Keeps-trans a b = record { current = b.current; same = λ k. b.same k ∙ a.same k }

  Keeps-hashes :
      (children : List Text) (u : Update kv)
      → Current u.cache u.db
      → Keeps u (cached_hashes kv compute_hash children u).1
  unfolding cached_hashes
  Keeps-hashes [] u c = record { current = c; same = λ k. refl }
  Keeps-hashes (child ∷ children) u c =
      let (_, first) = Keeps-get child u c in
      Keeps-trans first
        (Keeps-hashes children (get_cached_node kv compute_hash child u).1 first.current)

  Keeps-store :
      (key : Text) (node : Node) (hash : Text) (u : Update kv)
      → Plain hash
      → node.value ≡ (get_node kv key u.db).value
      → Current u.cache u.db
      → Keeps u (store_hash kv compute_hash key node hash u)
  unfolding store_hash
  Keeps-store key node hash u plain same c = elim (Bool-cases (text_eq node.hash hash)) [
    | inl old ↦ rw (store_hash, old) (record { current = c; same = λ k. refl })
    | inr new ↦
        let kept = SameValues-put key (record node { hash = hash }) u.db plain same in
        rw (store_hash, new) (record { current = λ k n h. c k n h ∙ sym (kept k); same = kept })
  ]

  module _ (digest : Digest compute_hash) where
    Keeps-visit :
        (key : Text) (u : Update kv) → Current u.cache u.db → Keeps u (visit kv compute_hash key u)
    unfolding visit
    Keeps-visit key u c =
        let seen : Update kv = record u { visited = key ∷ u.visited } in
        let found = get_cached_node kv compute_hash key seen in
        let (value, first) = Keeps-get key seen c in
        let rest = Keeps-hashes found.0.children found.1 first.current in
        let last =
          Keeps-store key found.0
            (compute_hash
              ((cached_hashes kv compute_hash found.0.children found.1).0 ++ found.0.value))
            (cached_hashes kv compute_hash found.0.children found.1).1 (digest.plain _)
            (value ∙ sym (first.same key) ∙ sym (rest.same key)) rest.current in
        record { current = last.current; same = λ k. last.same k ∙ rest.same k ∙ first.same k }

    Keeps-climb :
        (key : Text) (n : ℕ) (u : Update kv)
        → Current u.cache u.db
        → Keeps u (climb kv compute_hash key n u)
    unfolding climb
    Keeps-climb key zero u c = record { current = c; same = λ k. refl }
    Keeps-climb key (suc n) u c = elim (Bool-cases (contains u.visited (take (suc n) key))) [
      | inl seen ↦ rw (climb, seen) (record { current = c; same = λ k. refl })
      | inr new ↦
          let first = Keeps-visit (take (suc n) key) u c in
          rw (climb, new)
            (Keeps-trans first
              (Keeps-climb key n (visit kv compute_hash (take (suc n) key) u) first.current))
    ]

    Keeps-climb_all :
        (keys : List Text) (u : Update kv)
        → Current u.cache u.db
        → Keeps u (climb_all kv compute_hash keys u)
    unfolding climb_all
    Keeps-climb_all [] u c = record { current = c; same = λ k. refl }
    Keeps-climb_all (key ∷ keys) u c =
        let first = Keeps-climb (compute_hash key) (length (compute_hash key)) u c in
        Keeps-trans first (
          Keeps-climb_all keys
            (climb kv compute_hash (compute_hash key) (length (compute_hash key)) u) first.current)

    -- With hashes of 64 digits and no comma, and a cache whose nodes have the values of the database,
    -- `updateTree` of any keys changes what `getValue` gives for no key.
    pub update_tree-keeps :
        (keys : Text) (cache : List (Text × Node)) (db : kv.Db)
        → Current cache db
        → (j : Text)
        → get_value kv compute_hash j (update_tree kv compute_hash keys cache db).1
          ≡ get_value kv compute_hash j db
    unfolding update_tree get_value rehash_root
    update_tree-keeps keys cache db c j =
        let u : Update kv = record { visited = []; cache = cache; db = db } in
        let u' = climb_all kv compute_hash (words keys) u in
        let climbed = Keeps-climb_all (words keys) u c in
        SameValues-put (bytes "rootNode")
          (record (get_node kv (bytes "rootNode") u'.db) { hash = compute_hash _ }) u'.db
          (digest.plain _) refl (compute_hash j)
        ∙ climbed.same (compute_hash j)
