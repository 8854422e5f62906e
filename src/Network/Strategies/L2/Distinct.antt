-- ===== src/Network/Strategies/L2/Distinct.antt =====
-- The strategy l2 gives each host an address of its own.
use smoothie.Base.{
  String, ◌≡◌, ◌⊎◌, Bool, true, false, not, ◌||◌, none, some, List, [], ◌∷◌, map, nat_eq, string_eq,
  pair_eq, contains,
}
use smoothie.Base.Dict.{Dict}
use smoothie.Base.Error.{ok}
use smoothie.Base.Error.{>>=-eq-ok as result-eq-ok}
use smoothie.Base.Exec.{>>=-eq-ok}
use smoothie.Network.Mininet.{Net, Mininet}
use smoothie.Network.Links.Library.{Row, LinkLib}
use smoothie.Network.Strategies.{Plan, attached, is_valid}
use smoothie.Network.Strategies.L2.{set_addresses}

-- the addresses that are left, and those in use
abbrev Both : Type 0
Both = List String × List String

module _ (mn : Mininet) (lib : LinkLib) (plan : Plan) (reserved : Dict String String) where
  -- the address is not in use, and where the name of the host has no number, it is not reserved
  abbrev pub IsFree : String → List String → String → Type 0
  IsFree host used ip =
      (contains ip used ≡ false)
      × ((valid : Bool) × (is_valid mn plan host ≡ ok valid)
          × ((valid || not (contains ip (map (λ p. p.1) reserved))) ≡ true))

  -- The links one by one, from `s` to `t`: a link of a host gets an address that is free, and the
  -- addresses that were given before are in use.
  pub Runs : List Row → List String → Net → Net → Type 0
  Runs [] used s t = s ≡ t
  Runs (r ∷ rs) used s t =
      ((attached mn plan r.node1 r.node2 s.g ≡ ok none) × Runs rs used s t)
      ⊎ ((host : String) × (switch : String) × (ip : String) × (u : Net) × (attached mn plan r.node1
              r.node2 s.g
            ≡ ok (some (host, switch)))
          × IsFree host used ip
          × (set_addresses mn lib plan host switch ip "/16" s ≡ (ok tt, u))
          × Runs rs (ip ∷ used) u t)

  -- one round of the loop
  Step : Row → List String → Net → List String → Net → Type 0
  Step r used s more u =
      ((attached mn plan r.node1 r.node2 s.g ≡ ok none) × (used ≡ more) × (s ≡ u))
      ⊎ ((host : String) × (switch : String) × (ip : String) × (attached mn plan r.node1 r.node2 s.g
            ≡ ok (some (host, switch)))
          × IsFree host used ip
          × (set_addresses mn lib plan host switch ip "/16" s ≡ (ok tt, u))
          × (ip ∷ used ≡ more))
