-- ===== src/GlobalState/Hashes.antt =====
-- What `updateParentHashes` leaves alone.
use icsa_artifact.Base.{
  ℕ, zero, suc, ◌≤◌, ◌<◌, ◌≡◌, refl, ◌∙◌, ap, some, [], ◌∷◌, arith, length, take, ◌≢◌,
}
use icsa_artifact.Text.{Text, bytes}
use icsa_artifact.GlobalState.{
  KeyValue, node_of, get_node, get_value, rehash, rehash_prefixes, rehash_root,
  update_parent_hashes,
}
use icsa_artifact.GlobalState.Insert.{Digest, get-put_unchecked, prefix-ne, root-ne}

module _ (kv : KeyValue) (compute_hash : Text → Text) where
  get-rehash :
      (key j : Text) (db : kv.Db) → key ≢ j → kv.get j (rehash kv compute_hash key db) ≡ kv.get j db
  unfolding rehash
  get-rehash key j db ne = get-put_unchecked kv key _ j db ne

  get-rehash_prefixes :
      (key j : Text) (n : ℕ) (db : kv.Db)
      → n < length j
      → kv.get j (rehash_prefixes kv compute_hash key n db) ≡ kv.get j db
  unfolding rehash_prefixes
  get-rehash_prefixes key j zero db h = refl
  get-rehash_prefixes key j (suc n) db h =
      get-rehash_prefixes key j n _ (omega arith)
      ∙ get-rehash (take (suc n) key) j db (prefix-ne kv compute_hash key j (suc n) h)

  -- With hashes of 64 digits, `updateParentHashes` of a text that is not empty and has at most 64
  -- bytes is defined and changes what `getValue` gives for no key.
  pub update_parent_hashes-keeps :
      Digest compute_hash
      → (key : Text) (db : kv.Db) → 0 < length key
      → length key ≤ 64
      → (db' : kv.Db) × (update_parent_hashes kv compute_hash key db ≡ some db')
        × ((j : Text) → get_value kv compute_hash j db' ≡ get_value kv compute_hash j db)
  unfolding update_parent_hashes get_value get_node rehash_root
  update_parent_hashes-keeps digest [] db some_byte short = absurd (omega arith)
  update_parent_hashes-keeps digest (c ∷ cs) db some_byte short = (
    rehash_root kv compute_hash (rehash_prefixes kv compute_hash (c ∷ cs) (length cs) db),
    refl,
    λ j.
        ap (λ o. (node_of o).value)
          (get-put_unchecked kv (bytes "rootNode") _ (compute_hash j)
              (rehash_prefixes kv compute_hash (c ∷ cs) (length cs) db)
              (root-ne kv compute_hash (compute_hash j) (digest.size j))
            ∙ get-rehash_prefixes (c ∷ cs) (compute_hash j) (length cs) db
                (omega (arith, digest.size j))),
  )
