-- ===== src/Nft/Moves.antt =====
-- What the calls of the NFT contract do to the lists of the owners.
use icsa_artifact.Base.{
  ℕ, ◌+◌, ◌≡◌, ◌≢◌, refl, sym, ◌∙◌, ap, true, false, none, some, inl, inr, Bool-cases, List, [],
  ◌∷◌, ◌++◌, arith, if◌then◌else◌,
}
use icsa_artifact.Text.{Text, text_eq, text_eq_iff, text_eq_refl, text_eq_ne}
use icsa_artifact.Contract.{Map, ok, threw, ◌>>=◌, return, write}
use icsa_artifact.Nft.{
  World, holds, erase, get_or_load_owner_nft_list, add_hash, create_nft, transfer_nft, move, give,
}
use icsa_artifact.Nft.Owned.{
  owned, ReadsBack, owned-removed, owned-transferred, run-transfer, removed, after_load,
  owned-after_load, load-owned, owned-put,
}

-- How often a list has a text.
occurrences : List Text → Text → ℕ
occurrences [] h = 0
occurrences (x ∷ xs) h = (if text_eq x h then 1 else 0) + occurrences xs h

-- If the JSON library reads back what it writes, the owners differ, the image has a non-empty hash,
-- the first owner's list has it and the second owner's list can be read, then `transferNFT` answers
-- `true`, takes one occurrence of the hash out of the first list, puts the hash at the end of the
-- second one, and leaves the list of every other owner as it was.
pub transfer_nft-moves :
    (w : World)
    → ReadsBack w
    → (image a b : Text) (xs ys : List Text) (m : Map) → text_eq (w.image_hash image) [] ≡ false
    → a ≢ b
    → owned w a m ≡ some xs
    → holds xs (w.image_hash image) ≡ true
    → owned w b m ≡ some ys
    → ((transfer_nft w image a b m).0 ≡ ok true)
      × ((c : Text)
          → owned w c (transfer_nft w image a b m).1 ≡ (
              if text_eq b c
              then some (ys ++ (w.image_hash image ∷ []))
              else if text_eq a c
              then some (erase xs (w.image_hash image))
              else owned w c m))
transfer_nft-moves w back image a b xs ys m i n p h q =
    let done = run-transfer w back image a b xs ys m i n p h q in
    (
      ap (λ r. r.0) done,
      λ c.
          ap (λ r. owned w c r.1) done
          ∙ owned-transferred w back a b c (w.image_hash image) xs ys m p
              (owned-removed w back a b (w.image_hash image) xs m p ∙ rw (text_eq_ne a b n) q),
    )

-- If the JSON library reads back what it writes, the image has a non-empty hash and the owner's list can be read, then
-- `createNFT` answers `true`, leaves the list of every other owner as it was, and the owner's list is the same as before with the hash at
-- its end, if it did not have it, or the same list if it did.
create_nft-adds :
    (w : World)
    → ReadsBack w
    → (image a : Text) (xs : List Text) (m : Map) → text_eq (w.image_hash image) [] ≡ false
    → owned w a m ≡ some xs
    → ((create_nft w image a m).0 ≡ ok true)
      × ((c : Text)
          → owned w c (create_nft w image a m).1 ≡ (
              if text_eq a c
              then some
                  (if holds xs (w.image_hash image) then xs else xs ++ (w.image_hash image ∷ []))
              else owned w c m))
unfolding create_nft add_hash ◌>>=◌ write return
create_nft-adds w back image a xs m i p = elim (Bool-cases (holds xs (w.image_hash image))) [
  | inl h ↦
      let l = load-owned w back a m p in
      (
        rw (create_nft, i, l, add_hash, h, return) refl,
        λ c.
            rw (create_nft, i, l, add_hash, h, return)
              (owned-after_load w back a c m p ∙ ground (arith, p, text_eq_iff a c)),
      )
  | inr h ↦
      let l = load-owned w back a m p in
      (
        rw (create_nft, i, l, add_hash, h, return, write) refl,
        λ c.
            rw (create_nft, i, l, add_hash, h, return, write)
              (owned-put w back a c (xs ++ (w.image_hash image ∷ [])) (after_load w back a m)
                ∙ ap (λ o. if text_eq a c then some (xs ++ (w.image_hash image ∷ [])) else o)
                    (owned-after_load w back a c m p)),
      )
]

occurrences-append :
    (xs ys : List Text) (c : Text) → occurrences (xs ++ ys) c ≡ occurrences xs c + occurrences ys c
unfolding occurrences
occurrences-append [] ys c = omega arith
occurrences-append (x ∷ xs) ys c = ground (arith, occurrences-append xs ys c)

occurrences-erase :
    (xs : List Text) (h c : Text)
    → holds xs h ≡ true
    → occurrences (erase xs h) c + occurrences (h ∷ []) c ≡ occurrences xs c
unfolding occurrences erase holds
occurrences-erase [] h c e = ground arith
occurrences-erase (x ∷ xs) h c e = elim (Bool-cases (text_eq x h)) [
  | inl same ↦ rw (same, (text_eq_iff x h).0 same) (omega arith)
  | inr other ↦ rw other (ground (arith, e, other, occurrences-erase xs h c))
]

erase-conserves :
    (xs ys : List Text) (h c : Text)
    → holds xs h ≡ true
    → occurrences (erase xs h) c + occurrences (ys ++ (h ∷ [])) c
      ≡ occurrences xs c + occurrences ys c
erase-conserves xs ys h c e =
    ground (arith, occurrences-erase xs h c e, occurrences-append ys (h ∷ []) c)

load_lost :
    (w : World) (k : Text) (m : Map)
    → owned w k m ≡ none
    → get_or_load_owner_nft_list w k m ≡ (threw, m)
unfolding get_or_load_owner_nft_list
load_lost w k m e = ground (arith, e)

run_loss :
    (w : World) (back : ReadsBack w) (image a b : Text) (xs : List Text) (m : Map)
    → text_eq (w.image_hash image) [] ≡ false
    → a ≢ b
    → owned w a m ≡ some xs
    → holds xs (w.image_hash image) ≡ true
    → owned w b (removed w back a (w.image_hash image) xs m) ≡ none
    → transfer_nft w image a b m ≡ (threw, removed w back a (w.image_hash image) xs m)
unfolding transfer_nft move give ◌>>=◌ write
run_loss w back image a b xs m i n p h q =
    rw
      (
        transfer_nft,
        i,
        load-owned w back a m p,
        move,
        h,
        write,
        give,
        text_eq_ne a b n,
        load_lost w b (removed w back a (w.image_hash image) xs m) q,
      )
      refl

-- If the JSON library reads back what it writes, the owners differ, the image has a non-empty hash,
-- the first owner's list has it and the second owner's text is no list, then `transferNFT` ends by
-- an exception with the hash taken out of the first list and the second owner's text still no list.
pub transfer_nft-loses :
    (w : World)
    → ReadsBack w
    → (image a b : Text) (xs : List Text) (m : Map) → text_eq (w.image_hash image) [] ≡ false
    → a ≢ b
    → owned w a m ≡ some xs
    → holds xs (w.image_hash image) ≡ true
    → owned w b m ≡ none
    → ((transfer_nft w image a b m).0 ≡ threw)
      × (owned w a (transfer_nft w image a b m).1 ≡ some (erase xs (w.image_hash image)))
      × (owned w b (transfer_nft w image a b m).1 ≡ none)
transfer_nft-loses w back image a b xs m i n p h q =
    let none_yet = owned-removed w back a b (w.image_hash image) xs m p ∙ rw (text_eq_ne a b n) q in
    let done = run_loss w back image a b xs m i n p h none_yet in
    (
      ap (λ r. r.0) done,
      ap (λ r. owned w a r.1) done
          ∙ owned-removed w back a a (w.image_hash image) xs m p
          ∙ rw (text_eq_refl a),
      ap (λ r. owned w b r.1) done ∙ none_yet,
    )

-- How often an owner's list has a hash; a text that is no list has none.
counted : World → Text → Text → Map → ℕ
counted w owner h m = elim (owned w owner m) [ none ↦ 0 | some xs ↦ occurrences xs h ]

counted_list :
    (w : World) (owner h : Text) (m : Map) (xs : List Text)
    → owned w owner m ≡ some xs
    → counted w owner h m ≡ occurrences xs h
unfolding counted
counted_list w owner h m xs e =
    ap (λ o. elim o as (λ _. ℕ) [ none ↦ 0 | some list ↦ occurrences list h ]) e

-- If the JSON library reads back what it writes, the owners differ, the image has a non-empty hash,
-- the first owner's list has it and the second owner's list can be read, then `transferNFT` changes,
-- for no hash, how often the two owners together have it.
transfer_nft-conserves :
    (w : World)
    → ReadsBack w
    → (image a b : Text) (xs ys : List Text) (m : Map) → text_eq (w.image_hash image) [] ≡ false
    → a ≢ b
    → owned w a m ≡ some xs
    → holds xs (w.image_hash image) ≡ true
    → owned w b m ≡ some ys
    → (c : Text)
    → let after = (transfer_nft w image a b m).1 in
      counted w a c after + counted w b c after ≡ counted w a c m + counted w b c m
transfer_nft-conserves w back image a b xs ys m i n p h q c =
    let (_, lists) = transfer_nft-moves w back image a b xs ys m i n p h q in
    let after = (transfer_nft w image a b m).1 in
    let a_after =
      counted_list w a c after (erase xs (w.image_hash image))
        (lists a ∙ rw (text_eq_refl a, text_eq_ne b a (λ e. n (sym e))) refl) in
    let b_after =
      counted_list w b c after (ys ++ (w.image_hash image ∷ []))
        (lists b ∙ rw (text_eq_refl b) refl) in
    omega (
      arith,
      a_after,
      b_after,
      counted_list w a c m xs p,
      counted_list w b c m ys q,
      erase-conserves xs ys (w.image_hash image) c h,
    )
