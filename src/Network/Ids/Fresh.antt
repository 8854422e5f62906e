-- ===== src/Network/Ids/Fresh.antt =====
-- src/Network_API_l.py: the ids and ports that are given out are in use nowhere.
use smoothie.Base.{
  ℕ, ◌≤◌, ◌≡◌, refl, false, ◌||◌, List, [], ◌∷◌, ◌++◌, arith, nat_eq, string_eq, pair_eq, contains,
}
use smoothie.Base.Error.{ok, >>=-eq-ok}
use mathlib.Core.Path.{subst}
use smoothie.Network.Value.{Value, number, value_eq}
use smoothie.Network.Mininet.{Graph, Mininet}
use smoothie.Network.Ids.{switch_ids, thrift_ports, grpc_ports, auto_switch_id, auto_thrift_port}

contains-append :
    (x : Value) (xs ys : List Value) → contains x (xs ++ ys) ≡ (contains x xs || contains x ys)
contains-append x [] ys = refl
contains-append x (z ∷ xs) ys = ground (arith, contains-append x xs ys)

module _ (mn : Mininet) (base : ℕ) (g : Graph) where
  -- A switch id that is given out is not below the base, and no switch of the network has it.
  pub auto_switch_id_fresh :
      {id : ℕ}
      → auto_switch_id mn base g ≡ ok id
      → (base ≤ id)
        × (ids : List Value) × (switch_ids mn g ≡ ok ids)
        × (contains (number id) ids ≡ false)
  unfolding auto_switch_id
  auto_switch_id_fresh {id} e =
      let (ids, q, k) = >>=-eq-ok (switch_ids mn g) _ e in
      let same : mn.next_element ids base ≡ id = cc k in
      (
        subst (λ i. base ≤ i) same (mn.next_element_min ids base),
        ids,
        q,
        subst (λ i. contains (number i) ids ≡ false) same (mn.next_element_fresh ids base),
      )

  -- A Thrift port that is given out is not below the base, and it is neither a Thrift port nor a
  -- gRPC port of the network.
  pub auto_thrift_port_fresh :
      {port : ℕ}
      → auto_thrift_port mn base g ≡ ok port
      → (base ≤ port)
        × (thrift : List Value) × (grpc : List Value) × (thrift_ports mn g ≡ ok thrift)
        × (grpc_ports mn g ≡ ok grpc)
        × (contains (number port) thrift ≡ false)
        × (contains (number port) grpc ≡ false)
  unfolding auto_thrift_port
  auto_thrift_port_fresh {port} e =
      let (thrift, q, k) = >>=-eq-ok (thrift_ports mn g) _ e in
      let (grpc, r, l) = >>=-eq-ok (grpc_ports mn g) _ k in
      let same : mn.next_element (thrift ++ grpc) base ≡ port = cc l in
      let least = subst (λ i. base ≤ i) same (mn.next_element_min (thrift ++ grpc) base) in
      let fresh =
        subst (λ i. contains (number i) (thrift ++ grpc) ≡ false) same
          (mn.next_element_fresh (thrift ++ grpc) base) in
      let split = contains-append (number port) thrift grpc in
      let both : (contains (number port) thrift ≡ false) × (contains (number port) grpc ≡ false) =
        ground (arith, split, fresh) in
      (least, thrift, grpc, q, r, both.0, both.1)
