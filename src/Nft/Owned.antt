-- ===== src/Nft/Owned.antt =====
-- The lists that the owners hold, and what a transfer does to them.
use icsa_artifact.Base.{
  ◌≡◌, ◌≢◌, refl, ◌∙◌, ap, true, false, Option, none, some, Option-cases, inl, inr, List, [], ◌∷◌,
  ◌++◌, arith, if◌then◌else◌,
}
use icsa_artifact.Text.{Text, text_eq, text_eq_iff, text_eq_ne}
use icsa_artifact.Contract.{Map, find, put, ok, ◌>>=◌, return, write}
use icsa_artifact.Contract.Store.{find-put}
use icsa_artifact.Nft.{World, holds, erase, get_or_load_owner_nft_list, transfer_nft, move, give}

module _ (w : World) where
  -- The list of an owner: the map's, or else the global state's; `none` if the text is no list.
  abbrev pub owned : Text → Map → Option (List Text)
  owned owner m = elim (find owner m) [
    | some text ↦ w.parse text
    | none ↦ if text_eq (w.get_value owner) [] then some [] else w.parse (w.get_value owner)
  ]

  -- The JSON library reads back what it writes.
  abbrev pub ReadsBack : Type 0
  ReadsBack = (list : List Text) → w.parse (w.dump list) ≡ some list

  module _ (back : ReadsBack) where
    pub owned-put :
        (k c : Text) (list : List Text) (m : Map)
        → owned c (put k (w.dump list) m) ≡ (if text_eq k c then some list else owned c m)
    owned-put k c list m = ground (arith, find-put k c (w.dump list) m, back list)

    -- The map after a load.
    abbrev pub after_load : Text → Map → Map
    after_load k m = (get_or_load_owner_nft_list w k m).1

    load_hit :
        (k : Text) (m : Map) {text : Text} {list : List Text}
        → find k m ≡ some text
        → w.parse text ≡ some list
        → get_or_load_owner_nft_list w k m ≡ (ok list, m)
    unfolding get_or_load_owner_nft_list
    load_hit k m e p = rw (e, p, get_or_load_owner_nft_list) refl

    load_miss :
        (k : Text) (m : Map) {list : List Text}
        → find k m ≡ none
        → owned k m ≡ some list
        → get_or_load_owner_nft_list w k m ≡ (ok list, put k (w.dump list) m)
    unfolding get_or_load_owner_nft_list
    load_miss k m e p = ground (arith, e, p)

    load_value :
        (k : Text) (m : Map) {list : List Text}
        → owned k m ≡ some list
        → (get_or_load_owner_nft_list w k m).0 ≡ ok list
    load_value k m {list} p = elim (Option-cases (find k m)) [
      | inl e ↦ ap (λ r. r.0) (load_miss k m {list = list} e p)
      | inr (text, e) ↦ ap (λ r. r.0) (load_hit k m {list = list} e (ground (arith, e, p)))
    ]

    pub load-owned :
        (k : Text) (m : Map) {list : List Text}
        → owned k m ≡ some list
        → get_or_load_owner_nft_list w k m ≡ (ok list, after_load k m)
    load-owned k m p = ap (λ o. (o, after_load k m)) (load_value k m p)

    pub owned-after_load :
        (k c : Text) (m : Map) {list : List Text}
        → owned k m ≡ some list
        → owned c (after_load k m) ≡ owned c m
    owned-after_load k c m {list} p = elim (Option-cases (find k m)) [
      | inl e ↦
          ap (λ r. owned c r.1) (load_miss k m {list = list} e p)
          ∙ owned-put k c list m
          ∙ ground (arith, p, text_eq_iff k c)
      | inr (text, e) ↦ ap (λ r. owned c r.1) (load_hit k m {list = list} e (ground (arith, e, p)))
    ]

    -- The map after a transfer of `hash` from `a`, who holds `xs`, to `b`, who holds `ys`.
    abbrev pub removed : Text → Text → List Text → Map → Map
    removed a hash xs m = put a (w.dump (erase xs hash)) (after_load a m)

    abbrev pub transferred : Text → Text → Text → List Text → List Text → Map → Map
    transferred a b hash xs ys m =
        put b (w.dump (ys ++ (hash ∷ []))) (after_load b (removed a hash xs m))

    pub owned-removed :
        (a c hash : Text) (xs : List Text) (m : Map)
        → owned a m ≡ some xs
        → owned c (removed a hash xs m) ≡ (if text_eq a c then some (erase xs hash) else owned c m)
    owned-removed a c hash xs m p =
        owned-put a c (erase xs hash) (after_load a m)
        ∙ ap (λ o. if text_eq a c then some (erase xs hash) else o) (owned-after_load a c m p)

    pub owned-transferred :
        (a b c hash : Text) (xs ys : List Text) (m : Map)
        → owned a m ≡ some xs
        → owned b (removed a hash xs m) ≡ some ys
        → owned c (transferred a b hash xs ys m) ≡ (
            if text_eq b c
            then some (ys ++ (hash ∷ []))
            else if text_eq a c
            then some (erase xs hash)
            else owned c m)
    owned-transferred a b c hash xs ys m p q =
        owned-put b c (ys ++ (hash ∷ [])) (after_load b (removed a hash xs m))
        ∙ ap (λ o. if text_eq b c then some (ys ++ (hash ∷ [])) else o)
            (owned-after_load b c (removed a hash xs m) q ∙ owned-removed a c hash xs m p)

    pub run-give :
        (a b hash : Text) (ys : List Text) (m : Map)
        → a ≢ b
        → owned b m ≡ some ys
        → give w a b hash m ≡ (ok true, put b (w.dump (ys ++ (hash ∷ []))) (after_load b m))
    unfolding give ◌>>=◌ write return
    run-give a b hash ys m n q = rw (give, text_eq_ne a b n, load-owned b m q, write, return) refl

    pub run-transfer :
        (image a b : Text) (xs ys : List Text) (m : Map)
        → text_eq (w.image_hash image) [] ≡ false
        → a ≢ b
        → owned a m ≡ some xs
        → holds xs (w.image_hash image) ≡ true
        → owned b m ≡ some ys
        → transfer_nft w image a b m ≡ (ok true, transferred a b (w.image_hash image) xs ys m)
    unfolding transfer_nft move ◌>>=◌ write
    run-transfer image a b xs ys m i n p h q =
        rw (transfer_nft, i, load-owned a m p, move, h, write)
          (run-give a b (w.image_hash image) ys (removed a (w.image_hash image) xs m) n
            (owned-removed a b (w.image_hash image) xs m p ∙ rw (text_eq_ne a b n) q))
