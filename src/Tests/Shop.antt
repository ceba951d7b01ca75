-- ===== src/Tests/Shop.antt =====
-- The eCommerce contract on small maps.
use icsa_artifact.Base.{◌≡◌, refl, Option, none, some, [], ◌∷◌, if◌then◌else◌}
use icsa_artifact.Base.Int.{◌+ℤ◌, ◌-ℤ◌}
use icsa_artifact.Text.{Text, bytes, text_eq}
use icsa_artifact.Text.Decimal.{stoi, to_string}
use icsa_artifact.Contract.{Map, find, put, ◌>>=◌, return, attempt, int, write}
use icsa_artifact.Commerce.{get_or_load_value, add_to_cart, remove_from_cart}

-- The global state knows nothing.
abbrev nothing : Text → Text
nothing name = []

abbrev shop : Map
shop = (bytes "cart", bytes "pen 2 ink 1 ") ∷ (bytes "pens", bytes "40") ∷ []

add_then_remove :
    ((add_to_cart nothing (bytes "cart") (bytes "ink") (bytes "3") shop).1
      ≡ (bytes "cart", bytes "pen 2 ink 4 ") ∷ (bytes "pens", bytes "40") ∷ [])
    × ((remove_from_cart nothing (bytes "cart") (bytes "pen") (bytes "2") shop).1
        ≡ (bytes "cart", bytes "ink 1 ") ∷ (bytes "pens", bytes "40") ∷ [])
unfolding add_to_cart remove_from_cart get_or_load_value stoi to_string find put text_eq ◌>>=◌
    return attempt int write ◌+ℤ◌ ◌-ℤ◌
add_then_remove = (refl, refl)

-- A payload that is read as the removal of an item that is not in the cart.
abbrev removal : Text → Option (Text → Option Text)
removal payload = some (λ key.
    if text_eq key (bytes "Verb")
    then some (bytes "removeFromCart")
    else if text_eq key (bytes "Name")
    then some (bytes "cart")
    else if text_eq key (bytes "Item")
    then some (bytes "cap")
    else if text_eq key (bytes "Value")
    then some (bytes "1")
    else none)
