-- ===== src/Tests/Tokens.antt =====
-- The NFT contract on small maps.
use icsa_artifact.Base.{
  ℕ, zero, suc, ◌≡◌, refl, true, Option, none, some, List, [], ◌∷◌, ◌++◌, map, arith, if◌then◌else◌,
}
use icsa_artifact.Text.{Text, bytes, text_eq}
use icsa_artifact.Contract.{Map, ok, threw, find}
use icsa_artifact.Nft.{World, holds, erase, transfer_nft}
use icsa_artifact.Nft.Owned.{owned, ReadsBack}
use icsa_artifact.Nft.Moves.{transfer_nft-moves, transfer_nft-loses}

-- Arrays as texts: every byte one up, and a 0 behind each text.
prepend : ℕ → Option (List Text) → Option (List Text)
prepend c none = none
prepend c (some []) = none
prepend c (some (t ∷ ts)) = some ((c ∷ t) ∷ ts)

abbrev begin_text : Option (List Text) → Option (List Text)
begin_text none = none
begin_text (some ts) = some ([] ∷ ts)

pub read_array : Text → Option (List Text)
unfolding prepend
read_array [] = some []
read_array (zero ∷ cs) = begin_text (read_array cs)
read_array (suc c ∷ cs) = prepend c (read_array cs)

pub write_array : List Text → Text
write_array [] = []
write_array (t ∷ ts) = map suc t ++ (0 ∷ write_array ts)

read_first :
    (t cs : Text) (ts : List Text)
    → read_array cs ≡ some ts
    → read_array (map suc t ++ (0 ∷ cs)) ≡ some (t ∷ ts)
unfolding read_array prepend
read_first [] cs ts e = rw e
read_first (c ∷ t) cs ts e = rw (read_first t cs ts e)

abbrev pub world : World
world = record {
  parse = read_array;
  dump = write_array;
  get_value = λ owner. [];
  image_hash = λ image. image;
}

pub world-ReadsBack : ReadsBack world
unfolding read_array write_array
world-ReadsBack [] = refl
world-ReadsBack (t ∷ ts) = read_first t (write_array ts) ts (world-ReadsBack ts)

-- The owner `ann` has two tokens, `bob` is not known yet, and the text of `eve` is no array.
abbrev tokens : Map
tokens = (bytes "ann", write_array (bytes "x" ∷ bytes "y" ∷ [])) ∷ (bytes "eve", bytes "?") ∷ []

transfer_nft-moves_example :
    let r = transfer_nft world (bytes "x") (bytes "ann") (bytes "bob") tokens in
    (r.0 ≡ ok true)
    × ((c : Text)
        → owned world c r.1 ≡ (
            if text_eq (bytes "bob") c
            then some (bytes "x" ∷ [])
            else if text_eq (bytes "ann") c
            then some (bytes "y" ∷ [])
            else owned world c tokens))
unfolding read_array write_array holds erase find text_eq prepend
transfer_nft-moves_example =
    transfer_nft-moves world world-ReadsBack (bytes "x") (bytes "ann") (bytes "bob")
      (bytes "x" ∷ bytes "y" ∷ []) [] tokens refl (λ e. ground (arith, e)) refl refl refl

transfer_nft-loses_example :
    let r = transfer_nft world (bytes "x") (bytes "ann") (bytes "eve") tokens in
    (r.0 ≡ threw)
    × (owned world (bytes "ann") r.1 ≡ some (bytes "y" ∷ []))
    × (owned world (bytes "eve") r.1 ≡ none)
unfolding read_array write_array holds erase find text_eq prepend
transfer_nft-loses_example =
    transfer_nft-loses world world-ReadsBack (bytes "x") (bytes "ann") (bytes "eve")
      (bytes "x" ∷ bytes "y" ∷ []) tokens refl (λ e. ground (arith, e)) refl refl refl
