-- ===== src/Sbi/Routes.antt =====
-- internal/sbi/router.go: the routes and how they are registered. The tables are in the child modules.
pub mod Subscriptions
pub mod Policies
pub mod Exposures
pub mod ImsSdm
use Prim.Native.Char.{Char, code}
use Prim.Native.String.{String, [], ◌∷◌, ◌++◌}
use free5gc_udr.Base.{ℕ, ◌==◌, ◌||◌, ◌=ℕ=◌, if◌then◌else◌, List, [], ◌∷◌}
use free5gc_udr.Gin.{M, emit, plain}
use free5gc_udr.Sbi.{Incoming, World}

pub record Route (Db : Type 0) : Type 0 where
  pub name : String
  pub method : String
  pub pattern : String
  pub handler_func : Incoming → M (World Db) (Unit {0})

-- A route with its fields in their order.
abbrev pub route :
    {Db : Type 0} → String → String → String → (Incoming → M (World Db) (Unit {0})) → Route Db
route name method pattern handler_func = record {
  name = name;
  method = method;
  pattern = pattern;
  handler_func = handler_func;
}

-- The letter of the second text at the place of the character in the first.
upper_in : String → String → Char → Char
upper_in (a ∷ froms) (b ∷ tos) c = if code c =ℕ= code a then b else upper_in froms tos c
upper_in _ _ c = c

-- strings.ToUpper, for letters of ASCII.
unfoldable pub to_upper : String → String
unfolding upper_in
to_upper [] = []
to_upper (c ∷ s) = upper_in "abcdefghijklmnopqrstuvwxyz" "ABCDEFGHIJKLMNOPQRSTUVWXYZ" c ∷ to_upper s

-- The path of a route in a group.
unfoldable pub join_paths : String → String → String
join_paths prefix pattern = prefix ++ pattern

module _ {Db : Type 0} where
  unfoldable pub index : Incoming → M (World Db) (Unit {0})
  index req = emit (plain 501 "Hello World!")

  -- The routes that are registered with gin: those of the methods of the switch.
  unfoldable pub add_service : List (Route Db) → List (Route Db)
  add_service [] = []
  add_service (r ∷ rs) =
      let rest = add_service rs in
      if r.method == "GET"
        || r.method == "PATCH"
        || r.method == "POST"
        || r.method == "PUT"
        || r.method == "DELETE"
      then r ∷ rest
      else rest
