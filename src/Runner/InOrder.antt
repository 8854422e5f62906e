-- ===== src/Runner/InOrder.antt =====
-- The links of a description are added in order.
use smoothie.Base.{◌≢◌, List, [], ◌∷◌, nat_eq, string_eq, pair_eq, All}
use smoothie.Network.Value.{Attrs}
use smoothie.Network.Mininet.{Mininet}
use smoothie.Network.Links.Library.{LinkLib}
use smoothie.Network.Links.Auto.InOrder.{Keeps, then-Keeps}
use smoothie.Network.Links.Store.Updating.{add_link-InOrder}
use smoothie.Network.Strategies.{Plan}
use smoothie.Runner.{Loader, JsonLink, add_described, add_links}

module _ (mn : Mininet) (lib : LinkLib) (plan : Plan) (load : Loader) where
  -- The links of a description keep the links in order, where each is between two different nodes.
  pub add_links-Keeps :
      (defaults : Attrs) (ls : List JsonLink)
      → All (λ l. l.node1 ≢ l.node2) ls
      → Keeps mn (add_links mn lib plan load defaults ls)
  unfolding add_links add_described
  add_links-Keeps defaults [] apart = λ s v. v
  add_links-Keeps defaults (l ∷ ls) apart =
      then-Keeps mn (add_described mn lib plan load l.node1 l.node2 _) _
        (λ s. add_link-InOrder mn lib l.node1 l.node2 _ _ _ _ s apart.0)
        (λ j. add_links-Keeps defaults ls apart.1)
