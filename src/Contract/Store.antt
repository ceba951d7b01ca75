-- ===== src/Contract/Store.antt =====
-- Reading a map after a write.
use icsa_artifact.Base.{◌≡◌, refl, some, [], ◌∷◌, arith, if◌then◌else◌}
use icsa_artifact.Text.{Text, text_eq, text_eq_iff}
use icsa_artifact.Contract.{Map, find, put}

pub find-put :
    (k j v : Text) (m : Map) → find j (put k v m) ≡ (if text_eq k j then some v else find j m)
unfolding find put
find-put k j v [] = refl
find-put k j v ((i, w) ∷ m) =
    ground (arith, text_eq_iff k j, text_eq_iff i k, text_eq_iff i j, find-put k j v m)
