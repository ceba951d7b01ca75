-- ===== src/Commerce/Safety.antt =====
-- `ProcessTxn` of the eCommerce contract: its exceptions, and what a refused transaction leaves.
use icsa_artifact.Text.{Text}
use icsa_artifact.Contract.{Map}
use icsa_artifact.Contract.Atomic.{Atomic}
use icsa_artifact.Commerce.Stock.{shown}

module _ (get_value : Text → Text) where
  abbrev seen : Text → Map → Text
  seen = shown get_value
