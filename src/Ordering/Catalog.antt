-- ===== src/Ordering/Catalog.antt =====
-- internal/adapters/catalog: the fixed catalogue. The map of products is a list with distinct
-- identifiers.
use payments_boilerplate.Base.{
  String, List, [], ◌∷◌, Option, none, some, ◌==◌, if◌then◌else◌, Result, ok, err, ◌>>◌, is_some,
  guard, not, map_error,
}
use payments_boilerplate.Orders.{Product, validate_product}
use payments_boilerplate.Orders as Domain

pub data Error : Type 0 where
  invalid_product : Domain.Error → Error
  duplicated product_not_found : Error

abbrev lookup : List Product → String → Option Product
lookup [] id = none
lookup (p ∷ ps) id = if p.id == id then some p else lookup ps id

-- The loop of `NewStatic`, from an index on.
unfoldable pub add_all : List Product → List Product → Result Error (List Product)
add_all index [] = ok index
add_all index (p ∷ ps) = do
  map_error invalid_product (validate_product p)
  guard (not (is_some (lookup index p.id))) duplicated
  add_all (p ∷ index) ps

-- `NewStatic`.
unfoldable pub new_static : List Product → Result Error (List Product)
unfolding add_all
new_static products = add_all [] products

abbrev resolved : Option Product → Result Error Product
resolved none = err product_not_found
resolved (some p) = ok p

-- `Static.Product`.
unfoldable pub product : List Product → String → Result Error Product
product index id = resolved (lookup index id)
