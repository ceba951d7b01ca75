-- ===== src/Commerce.antt =====
-- BlockRAFT-distributed_node/smartContracts/eCommerce/eCommProcessor.h: carts, which are texts of
-- item names and quantities, and stocks of items.
pub mod Safety
pub mod Stock
use icsa_artifact.Base.{
  Bool, true, false, Option, none, some, List, [], ◌∷◌, ◌++◌, if◌then◌else◌, ◌≡◌, refl, ℕ,
}
use icsa_artifact.Base.Int.{ℤ, pos, ◌+ℤ◌, ◌-ℤ◌, ltb_ℤ}
use icsa_artifact.Text.{Text, bytes, text_eq}
use icsa_artifact.Text.Decimal.{stoi, to_string, is_space}
use icsa_artifact.Contract.{Map, ok, M, ◌>>=◌, ◌>>◌, return, attempt, int, write, catch_false, find}

abbrev emit : Text → List Text → List Text
emit [] ws = ws
emit (c ∷ cs) ws = (c ∷ cs) ∷ ws

-- The words of a text, as `operator>>` of an `istringstream` reads them; `word` is the one begun.
unfoldable pub words_from : Text → Text → List Text
words_from word [] = emit word []
words_from word (c ∷ cs) =
    let rest = words_from [] cs in
    let more = words_from (word ++ (c ∷ [])) cs in if is_space c then emit word rest else more

unfoldable pub words : Text → List Text
unfolding words_from
words t = words_from [] t

-- `name + " " + quantity + " "`
abbrev pub line : Text → Text → Text
line name quantity = name ++ (bytes " " ++ (quantity ++ bytes " "))

-- The loop over a cart: the quantity of the item is edited, and other lines are kept. A last word
-- without a quantity is dropped. The state is `found` and `updatedCart`.
pub edit_cart : (edit : Text → M Text) → Text → List Text → Bool → Text → M (Bool × Text)
edit_cart edit item [] found cart = return (found, cart)
edit_cart edit item (name ∷ []) found cart = return (found, cart)
edit_cart edit item (name ∷ quantity ∷ ws) found cart =
    if text_eq name item
    then (edit quantity >>= λ text. edit_cart edit item ws true (cart ++ text))
    else edit_cart edit item ws found (cart ++ line name quantity)

-- The line of an item with more of it.
pub more_of : Text → Text → Text → M Text
more_of item quantity existing = do
  have ← attempt (stoi existing)
  added ← attempt (stoi quantity)
  total ← int (have +ℤ added)
  return (line item (to_string total))

-- The line of an item with less of it; nothing when none is left.
pub less_of : Text → Text → Text → M Text
less_of item quantity existing = do
  have ← attempt (stoi existing)
  taken ← attempt (stoi quantity)
  total ← int (have -ℤ taken)
  return (if ltb_ℤ (pos 0) total then line item (to_string total) else [])

module _ (get_value : Text → Text) where
  unfoldable pub get_or_load_value : Text → M Text
  get_or_load_value key m = elim (find key m) [
    | some value ↦ (ok value, m)
    | none ↦ (do write key (get_value key); return (get_value key)) m
  ]

  unfoldable pub checkout : Text → M Bool
  checkout cart_address = do
    contents ← get_or_load_value cart_address
    if text_eq contents [] then return true else (do write cart_address []; return true)

  unfoldable pub add_to_cart : Text → Text → Text → M Bool
  unfolding words edit_cart more_of
  add_to_cart cart_address item quantity = do
    contents ← get_or_load_value cart_address
    (found, cart) ← edit_cart (more_of item quantity) item (words contents) false []
    write cart_address (if found then cart else cart ++ line item quantity)
    return true

  unfoldable pub remove_from_cart : Text → Text → Text → M Bool
  unfolding words edit_cart less_of
  remove_from_cart cart_address item quantity = do
    contents ← get_or_load_value cart_address
    (found, cart) ← edit_cart (less_of item quantity) item (words contents) false []
    if found then (do write cart_address cart; return true) else return false

  unfoldable pub refill_item : Text → Text → M Bool
  refill_item item_address quantity = do
    existing ← get_or_load_value item_address
    have ← attempt (stoi (if text_eq existing [] then bytes "0" else existing))
    added ← attempt (stoi quantity)
    total ← int (have +ℤ added)
    write item_address (to_string total)
    return true

  -- The calls by the payload's verb; `field` gives the payload's string members.
  by_verb : (Text → Option Text) → M Bool
  unfolding add_to_cart remove_from_cart
  by_verb field = do
    verb ← attempt (field (bytes "Verb"))
    if text_eq verb (bytes "checkout")
        then (do name ← attempt (field (bytes "Name1")); checkout name)
        else if text_eq verb (bytes "addToCart")
        then (do
          name ← attempt (field (bytes "Name"))
          item ← attempt (field (bytes "Item"))
          quantity ← attempt (field (bytes "Value"))
          add_to_cart name item quantity)
        else if text_eq verb (bytes "removeFromCart")
        then (do
          name ← attempt (field (bytes "Name"))
          item ← attempt (field (bytes "Item"))
          quantity ← attempt (field (bytes "Value"))
          remove_from_cart name item quantity)
        else if text_eq verb (bytes "refillItem")
        then (do
          name ← attempt (field (bytes "Name"))
          quantity ← attempt (field (bytes "Value"))
          refill_item name quantity)
        else return false

  -- `parse_header` and `parse_payload` are the protobuf and JSON libraries, as in the wallet.
  pub process_txn : (Text → Bool) → (Text → Option (Text → Option Text)) → Text → Text → M Bool
  unfolding by_verb
  process_txn parse_header parse_payload header payload m =
      if parse_header header
      then catch_false ((attempt (parse_payload payload) >>= by_verb) m)
      else (ok false, m)
