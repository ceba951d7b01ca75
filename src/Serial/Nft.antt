-- ===== src/Serial/Nft.antt =====
-- singleNode-serial/smartContracts/nft/nftProcessor.h: the NFT contract of the serial node, which
-- takes an unreadable list in the map for the empty one, moves a token out of a list of the map
-- only, and gives each lock back before it takes the next. Its libraries are those of the
-- distributed node's contract.
use icsa_artifact.Base.{
  Bool, true, false, Option, none, some, List, [], ◌∷◌, ◌++◌, ◌≡◌, refl, if◌then◌else◌,
}
use icsa_artifact.Text.{Text, bytes, text_eq, text_eq_refl}
use icsa_artifact.Contract.{Map, ok, M, ◌>>=◌, ◌>>◌, return, attempt, write, catch_false, find, put}
use icsa_artifact.Contract.Store.{find-put}
use icsa_artifact.Nft.{World, holds, erase, load_list}

module _ (w : World) where
  -- The list of a text of the map; an unreadable text is replaced.
  read_list : Text → Text → M (List Text)
  read_list owner text m = elim (w.parse text) [
    | some list ↦ (ok list, m)
    | none ↦ (ok [], put owner (w.dump []) m)
  ]

  -- `getOrLoadOwnerNFTList`
  get_or_load_owner_nft_list : Text → M (List Text)
  unfolding read_list
  get_or_load_owner_nft_list owner m = elim (find owner m) [
    | some text ↦ read_list owner text m
    | none ↦ load_list w owner m
  ]

  add_hash : Text → Text → List Text → M Bool
  add_hash owner hash list =
      if holds list hash
      then return true
      else (do write owner (w.dump (list ++ (hash ∷ []))); return true)

  -- `createNFT`
  pub create_nft : Text → Text → M Bool
  unfolding get_or_load_owner_nft_list add_hash
  create_nft image owner =
      if text_eq (w.image_hash image) []
      then return false
      else (get_or_load_owner_nft_list owner >>= add_hash owner (w.image_hash image))

  -- The second block of `transferNFT`.
  give : Text → Text → M Bool
  unfolding get_or_load_owner_nft_list
  give new_owner hash = do
    list ← get_or_load_owner_nft_list new_owner
    write new_owner (w.dump (list ++ (hash ∷ [])))
    return true

  move : Text → Text → Text → List Text → M Bool
  unfolding give
  move old_owner new_owner hash list =
      if holds list hash
      then (do write old_owner (w.dump (erase list hash)); give new_owner hash)
      else return false

  -- `transferNFT`
  unfoldable pub transfer_nft : Text → Text → Text → M Bool
  unfolding move
  transfer_nft image old_owner new_owner m =
      if text_eq (w.image_hash image) [] then (ok false, m) else elim (find old_owner m) [
        | none ↦ (ok false, m)
        | some text ↦ (attempt (w.parse text) >>= move old_owner new_owner (w.image_hash image)) m
      ]

  -- The calls by the payload's verb; `field` gives the payload's string members.
  by_verb : (Text → Option Text) → M Bool
  unfolding create_nft
  by_verb field = do
    verb ← attempt (field (bytes "Verb"))
    if text_eq verb (bytes "nft_create")
        then (do
          image ← attempt (field (bytes "ImagePath"))
          owner ← attempt (field (bytes "Owner"))
          create_nft image owner)
        else if text_eq verb (bytes "nft_transfer")
        then (do
          image ← attempt (field (bytes "ImagePath"))
          old_owner ← attempt (field (bytes "OldOwner"))
          new_owner ← attempt (field (bytes "NewOwner"))
          transfer_nft image old_owner new_owner)
        else return false

  -- `parse_header` and `parse_payload` are the protobuf and JSON libraries, as in the wallet.
  pub process_txn : (Text → Bool) → (Text → Option (Text → Option Text)) → Text → Text → M Bool
  unfolding by_verb
  process_txn parse_header parse_payload header payload m =
      if parse_header header
      then catch_false ((attempt (parse_payload payload) >>= by_verb) m)
      else (ok false, m)

  -- A transfer from an owner to the same owner, who has the token in a list of the map that can be
  -- read, answers `true` and takes the hash out of the list and puts it at its end.
  transfer_nft_self :
      ((list : List Text) → w.parse (w.dump list) ≡ some list)
      → (image owner text : Text) (list : List Text) (m : Map)
      → text_eq (w.image_hash image) [] ≡ false
      → find owner m ≡ some text
      → w.parse text ≡ some list
      → holds list (w.image_hash image) ≡ true
      → let hash = w.image_hash image in
        transfer_nft image owner owner m ≡ (
          ok true,
          put owner
              (w.dump (erase list hash ++ (hash ∷ [])))
              (put owner (w.dump (erase list hash)) m),
        )
  unfolding transfer_nft move give get_or_load_owner_nft_list read_list ◌>>=◌ attempt write return
  transfer_nft_self back image owner text list m i e p h =
      rw
        (
          transfer_nft,
          i,
          e,
          p,
          move,
          h,
          give,
          get_or_load_owner_nft_list,
          find-put owner owner (w.dump (erase list (w.image_hash image))) m,
          text_eq_refl owner,
          read_list,
          back (erase list (w.image_hash image)),
        )
        refl
