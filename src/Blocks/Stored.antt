-- ===== src/Blocks/Stored.antt =====
-- What the database of blocks answers after a block was stored.
use icsa_artifact.Base.{◌≡◌, ◌≢◌, refl, sym, ◌∙◌, true, false, none, some}
use icsa_artifact.Text.{Text, text_eq_refl, text_eq_ne}
use icsa_artifact.GlobalState.{KeyValue, put_unchecked}
use icsa_artifact.Blocks.{latest_key, store_block, get_block, get_latest_block_num}

module _ (kv : KeyValue) (block_id block_data : Text) (db named : kv.Db)
    (names : kv.put latest_key block_id db ≡ some named) where
  taken : put_unchecked kv latest_key block_id db ≡ named
  taken = rw (put_unchecked, names) refl

  latest_named : kv.get latest_key named ≡ some block_id
  latest_named =
      kv.get-put latest_key block_id latest_key db named names ∙ rw (text_eq_refl latest_key) refl

  other_kept : block_id ≢ latest_key → kv.get block_id named ≡ kv.get block_id db
  other_kept ne =
      kv.get-put latest_key block_id block_id db named names
      ∙ rw (text_eq_ne latest_key block_id (λ e. ne (sym e))) refl

  latest_kept :
      (db' : kv.Db)
      → block_id ≢ latest_key
      → kv.put block_id block_data named ≡ some db'
      → kv.get latest_key db' ≡ some block_id
  latest_kept db' ne stored =
      kv.get-put block_id block_data latest_key named db' stored
      ∙ rw (text_eq_ne block_id latest_key ne) latest_named

  -- If the database takes the name of the latest block and the block's own name is another one, then:
  -- if the database also takes the block, `storeBlock` answers `true`, `getBlock` gives the block's
  -- data and `getLatestBlockNum` its name; if the database refuses the block, `storeBlock` answers
  -- `false`, `getBlock` gives for the block what it gave before, and `getLatestBlockNum` gives its
  -- name all the same.
  pub store_block_lem :
      block_id ≢ latest_key
      → let r = store_block kv block_id block_data db in
        ((db' : kv.Db)
          → kv.put block_id block_data named ≡ some db'
          → (r.0 ≡ true)
            × (get_block kv block_id r.1 ≡ block_data)
            × (get_latest_block_num kv r.1 ≡ block_id))
        × (kv.put block_id block_data named ≡ none
            → (r.0 ≡ false)
              × (get_block kv block_id r.1 ≡ get_block kv block_id db)
              × (get_latest_block_num kv r.1 ≡ block_id))
  unfolding store_block get_block get_latest_block_num
  store_block_lem ne = (
    λ db' stored.
        let there : kv.get block_id db' ≡ some block_data =
          kv.get-put block_id block_data block_id named db' stored
          ∙ rw (text_eq_refl block_id) refl in
        (
          rw (store_block, taken, stored) refl,
          rw (store_block, taken, stored, get_block, there) refl,
          rw (store_block, taken, stored, get_latest_block_num, latest_kept db' ne stored) refl,
        ),
    λ refused. (
      rw (store_block, taken, refused) refl,
      rw (store_block, taken, refused, get_block, taken, other_kept ne) refl,
      rw (store_block, taken, refused, get_latest_block_num, taken, latest_named) refl,
    ),
  )
