-- ===== src/Network/Links/Auto/Fresh.antt =====
-- The ports and addresses that the automatic assignment takes are free.
use smoothie.Base.{
  ℕ, ◌≤◌, String, ◌≡◌, refl, sym, ◌∙◌, ◌⊎◌, inl, inr, Bool, true, false, Option, some, ◌++◌, List,
  [], ◌∷◌, arith, Eq, ◌==◌, nat_eq, string_eq, pair_eq, Bool-cases, Option-cases, is_some, contains,
}
use smoothie.Base.Dict.{Dict, get, has, keys}
use smoothie.Base.Error.{Result, ok, Result-cases, >>=-eq-ok}
use mathlib.Core.List.{Memᴰ}
use mathlib.Core.Path.{subst}
use smoothie.Network.Ids.{is_switch}
use Prim.Native.String.{◌++◌ as append}
use smoothie.Network.Value.{Value, params, given, number, value_eq}
use smoothie.Network.Mininet.{Graph, Mininet}
use smoothie.Network.Links.Library.{LinkLib, Row}
use smoothie.Network.Links.Rows.{
  side_ip, ip_of, ips_of, before_slash, node_ports, ip_addresses, auto_port_num,
}
use smoothie.Network.Links.Rows.Taken.{taken}
use smoothie.Network.Links.Auto.{Source, first_free, auto_ip_address}

module _ {A : Type 0} ⦃e : Eq A⦄ where
  contains-keys_of : {V : Type 0} (d : Dict A V) (k : A) → contains k (keys d) ≡ has d k
  unfolding has is_some get
  contains-keys_of [] k = refl
  contains-keys_of ((j, v) ∷ d) k =
      ground (arith, contains-keys_of d k, e.beq_iff j k, e.beq_iff k j)

  -- What is chosen is in the list, and not in use.
  first_free-contains :
      (xs used : List A) (x : A)
      → first_free xs used ≡ ok x
      → (contains x xs ≡ true) × (contains x used ≡ false)
  unfolding first_free
  first_free-contains [] used x h = cc h
  first_free-contains (y ∷ xs) used x h = elim (Bool-cases (contains y used)) [
    | inl q ↦ let (a, b) = first_free-contains xs used x (rw q at h) in (ground (arith, a), b)
    | inr q ↦
        let same : ◌≡◌ {A = Result A} (ok y) (ok x) = rw q at h in
        let here : y ≡ x = cc same in (ground (arith, e.beq_iff x y, here), rw here at q)
  ]

  -- The loop ends with a value where there is a free one.
  first_free_ends :
      (xs used : List A) (x : A)
      → contains x xs ≡ true
      → contains x used ≡ false
      → (y : A) × (first_free xs used ≡ ok y)
  unfolding first_free
  first_free_ends [] used x h f = cc h
  first_free_ends (y ∷ xs) used x h f = elim (Bool-cases (contains y used)) [
    | inr q ↦ (y, rw q refl)
    | inl q ↦
        let other : (y == x) ≡ false = elim (Bool-cases (y == x)) [
          | inr r ↦ r
          | inl r ↦ cc (f, q, (e.beq_iff y x).0 r)
        ] in
        rw q (first_free_ends xs used x (ground (arith, h, other)) f)
  ]

module _ (mn : Mininet) (lib : LinkLib) where
  -- The port that is chosen for a node is at least the base, and no link has it at that node.
  auto_port_num_fresh :
      (base : ℕ) (g : Graph) (node : String)
      → (base ≤ auto_port_num mn lib base g node)
        × (taken (node_ports mn lib g) node (number (auto_port_num mn lib base g node)) ≡ false)
  unfolding auto_port_num
  auto_port_num_fresh base g node = elim (Option-cases (get (node_ports mn lib g) node)) [
    | inl q ↦ rw (auto_port_num, q, taken) (omega arith, refl)
    | inr (ports, q) ↦
        let chosen : auto_port_num mn lib base g node ≡ mn.next_element (keys ports) base =
          rw (auto_port_num, q) refl in
        let free : has ports (number (mn.next_element (keys ports) base)) ≡ false =
          sym (contains-keys_of ports (number (mn.next_element (keys ports) base)))
          ∙ mn.next_element_fresh (keys ports) base in
        rw chosen (mn.next_element_min (keys ports) base, rw (taken, q) free)
  ]

  -- an end of a link, whose node is no switch, has this address
  abbrev pub HasAddress : Graph → String → Option Value → String → Type 0
  HasAddress g node p ip =
      (is_switch mn g node ≡ ok false)
      × ((d : Dict String String) × (t : String) × (p ≡ some (params d))
          × (get d "ip" ≡ some t)
          × (before_slash t ≡ ip))

  side_ip-HasAddress :
      (g : Graph) (node : String) (p : Option Value) (ip : String) (b : Bool) (ips : List String)
      → HasAddress g node p ip
      → is_switch mn g node ≡ ok b
      → side_ip b p ≡ ok ips
      → contains ip ips ≡ true
  unfolding side_ip ip_of
  side_ip-HasAddress g node p ip b ips (no_switch, (d, t, e, f, same)) q h =
      let here : ◌≡◌ {A = Result Bool} (ok b) (ok false) = sym q ∙ no_switch in
      let plain : b ≡ false = cc here in
      let only : ◌≡◌ {A = Result (List String)} (ok (ip ∷ [])) (ok ips) =
        (rw (plain, e, f, same) at h) in
      let single : ip ∷ [] ≡ ips = cc only in
      subst (λ l. contains ip l ≡ true) single (ground (arith, string_eq.beq_iff ip ip))

  contains_left :
      (xs ys : List String) (x : String) → contains x xs ≡ true → contains x (xs ++ ys) ≡ true
  contains_left [] ys x h = cc h
  contains_left (z ∷ xs) ys x h = ground (arith, contains_left xs ys x)

  contains_right :
      (xs ys : List String) (x : String) → contains x ys ≡ true → contains x (xs ++ ys) ≡ true
  contains_right [] ys x h = h
  contains_right (z ∷ xs) ys x h = ground (arith, contains_right xs ys x h)

  -- some end of the link has this address
  abbrev pub Has : Graph → Row → String → Type 0
  Has g r ip =
      HasAddress g r.node1 (given r.info "params1") ip
      ⊎ HasAddress g r.node2 (given r.info "params2") ip

  ips_of-contains :
      (g : Graph) (rs : List Row) (r : Row) (ip : String) (used : List String)
      → Memᴰ r rs
      → Has g r ip
      → ips_of mn lib g rs ≡ ok used
      → contains ip used ≡ true
  unfolding ips_of
  ips_of-contains g [] r ip used m a h = elim m [ ]
  ips_of-contains g (x ∷ rs) r ip used m a h =
      let (b1, s1, h1) = >>=-eq-ok (is_switch mn g x.node1) _ h in
      let (ips1, e1, h2) = >>=-eq-ok (side_ip b1 (given x.info "params1")) _ h1 in
      let (b2, s2, h3) = >>=-eq-ok (is_switch mn g x.node2) _ h2 in
      let (ips2, e2, h4) = >>=-eq-ok (side_ip b2 (given x.info "params2")) _ h3 in
      let (rest, e3, h5) = >>=-eq-ok (ips_of mn lib g rs) _ h4 in
      let all : ips1 ++ (ips2 ++ rest) ≡ used = cc h5 in
      subst (λ l. contains ip l ≡ true) all
        (elim m [
          | Memᴰ.head q ↦ elim (subst (λ y. Has g y ip) q a) [
            | inl l ↦
                contains_left ips1 (ips2 ++ rest) ip
                  (side_ip-HasAddress g x.node1 (given x.info "params1") ip b1 ips1 l s1 e1)
            | inr l ↦ contains_right ips1 (ips2 ++ rest) ip (
                contains_left ips2 rest ip
                  (side_ip-HasAddress g x.node2 (given x.info "params2") ip b2 ips2 l s2 e2))
          ]
          | Memᴰ.tail t ↦
              contains_right ips1 (ips2 ++ rest) ip
                (contains_right ips2 rest ip (ips_of-contains g rs r ip rest t a e3))
        ])

  -- The address that is chosen is one of the network's hosts, and no end of a link that is at a node
  -- other than a switch has it, where the addresses of the links can be read.
  pub auto_ip_address_fresh :
      (src : Source) (g : Graph) (used : List String) (address : String)
      → ip_addresses mn lib g ≡ ok used
      → auto_ip_address mn lib src g ≡ ok address
      → (ip : String) × (address ≡ append ip (append "/" src.prefix_len))
        × (contains ip src.hosts ≡ true)
        × ((r : Row) → Memᴰ r (lib.links g) → ¬ Has g r ip)
  unfolding auto_ip_address ip_addresses
  auto_ip_address_fresh src g used address h e = elim (Result-cases (first_free src.hosts used)) [
    | inr (x, q) ↦ cc (rw (auto_ip_address, h, q) at e)
    | inl (ip, q) ↦
        let (a, b) = first_free-contains src.hosts used ip q in
        let same : ◌≡◌ {A = Result String} (ok (append ip (append "/" src.prefix_len)))
            (ok address) =
          rw (auto_ip_address, h, q) at e in
        (ip, cc same, a, λ r m has_it. cc (b, ips_of-contains g (lib.links g) r ip used m has_it h))
  ]

  -- The search for an address ends with one where any of the network's hosts is free.
  pub auto_ip_address_ends :
      (src : Source) (g : Graph) (used : List String) (ip : String)
      → ip_addresses mn lib g ≡ ok used
      → contains ip src.hosts ≡ true
      → contains ip used ≡ false
      → (address : String) × (auto_ip_address mn lib src g ≡ ok address)
  unfolding auto_ip_address
  auto_ip_address_ends src g used ip h there free =
      let (x, q) = first_free_ends src.hosts used ip there free in
      (append x (append "/" src.prefix_len), rw (auto_ip_address, h, q) refl)
