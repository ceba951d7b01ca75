-- ===== src/Nft.antt =====
-- BlockRAFT-distributed_node/smartContracts/nft/nftProcessor.h: the tokens of an owner, which are the
-- hashes of images, kept as a JSON array in the shared map.
pub mod Owned
pub mod Moves
use icsa_artifact.Base.{
  Bool, true, false, ◌||◌, Option, none, some, List, [], ◌∷◌, ◌++◌, if◌then◌else◌,
}
use icsa_artifact.Text.{Text, bytes, text_eq}
use icsa_artifact.Contract.{
  Map, Outcome, ok, undefined, M, ◌>>=◌, ◌>>◌, return, attempt, write, catch_false, find,
}

-- `std::find(list.begin(), list.end(), hash) != list.end()`
unfoldable pub holds : List Text → Text → Bool
holds [] hash = false
holds (h ∷ hs) hash = text_eq h hash || holds hs hash

-- `list.erase(std::find(list.begin(), list.end(), hash))`
unfoldable pub erase : List Text → Text → List Text
erase [] hash = []
erase (h ∷ hs) hash = if text_eq h hash then hs else h ∷ erase hs hash

-- Waiting for a lock that the caller holds: the call never returns.
abbrev pub hang : {A : Type 0} → M A
hang m = (undefined, m)

-- What the code asks of the JSON library, the global state and the file system: the array of texts
-- that a JSON text stands for (`none`: it is not one, an exception), the text of an array,
-- `getValue`, and the hash of an image file (empty: the file cannot be opened).
pub record World : Type 0 where
  pub parse : Text → Option (List Text)
  pub dump : List Text → Text
  pub get_value : Text → Text
  pub image_hash : Text → Text

module _ (w : World) where
  -- The global state's list, put into the map.
  pub load_list : Text → M (List Text)
  load_list owner = do
    list ←
        if text_eq (w.get_value owner) [] then return [] else attempt (w.parse (w.get_value owner))
    write owner (w.dump list)
    return list

  -- `getOrLoadOwnerNFTList`
  pub get_or_load_owner_nft_list : Text → M (List Text)
  unfolding load_list ◌>>=◌ attempt write return
  get_or_load_owner_nft_list owner m = elim (find owner m) [
    | some text ↦ attempt (w.parse text) m
    | none ↦ load_list owner m
  ]

  add_hash : Text → Text → List Text → M Bool
  add_hash owner hash list =
      if holds list hash
      then return true
      else (do write owner (w.dump (list ++ (hash ∷ []))); return true)

  -- `createNFT`
  unfoldable pub create_nft : Text → Text → M Bool
  unfolding add_hash
  create_nft image owner =
      if text_eq (w.image_hash image) []
      then return false
      else (get_or_load_owner_nft_list owner >>= add_hash owner (w.image_hash image))

  -- The second half of `transferNFT`, with the first owner's element still locked.
  pub give : Text → Text → Text → M Bool
  give old_owner new_owner hash = if text_eq old_owner new_owner then hang else (do
    list ← get_or_load_owner_nft_list new_owner
    write new_owner (w.dump (list ++ (hash ∷ [])))
    return true)

  pub move : Text → Text → Text → List Text → M Bool
  unfolding give
  move old_owner new_owner hash list =
      if holds list hash
      then (do write old_owner (w.dump (erase list hash)); give old_owner new_owner hash)
      else return false

  -- `transferNFT`
  unfoldable pub transfer_nft : Text → Text → Text → M Bool
  unfolding move
  transfer_nft image old_owner new_owner =
      if text_eq (w.image_hash image) []
      then return false
      else (get_or_load_owner_nft_list old_owner >>= move old_owner new_owner (w.image_hash image))

  -- The calls by the payload's verb; `field` gives the payload's string members.
  by_verb : (Text → Option Text) → M Bool
  by_verb field = do
    verb ← attempt (field (bytes "Verb"))
    if text_eq verb (bytes "nft_create")
        then (do
          image ← attempt (field (bytes "ImagePath"))
          owner ← attempt (field (bytes "Owner"))
          create_nft image owner)
        else if text_eq verb (bytes "nft_transfer")
        then (do
          image ← attempt (field (bytes "ImagePath"))
          old_owner ← attempt (field (bytes "OldOwner"))
          new_owner ← attempt (field (bytes "NewOwner"))
          transfer_nft image old_owner new_owner)
        else return false

  -- `parse_header` and `parse_payload` are the protobuf and JSON libraries, as in the wallet.
  unfoldable pub process_txn :
      (Text → Bool) → (Text → Option (Text → Option Text)) → Text → Text → M Bool
  unfolding by_verb
  process_txn parse_header parse_payload header payload m =
      if parse_header header
      then catch_false ((attempt (parse_payload payload) >>= by_verb) m)
      else (ok false, m)
