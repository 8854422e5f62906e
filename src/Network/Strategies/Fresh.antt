-- ===== src/Network/Strategies/Fresh.antt =====
-- The addresses that the strategies give are new.
use smoothie.Base.{
  String, ◌≡◌, refl, inl, inr, Bool, true, false, not, ◌||◌, List, [], ◌∷◌, ◌++◌, map, arith,
  nat_eq, string_eq, pair_eq, Bool-cases, Option-cases, contains,
}
use smoothie.Base.Dict.{Dict, get}
use smoothie.Base.Error.{Result, ok}
use smoothie.Network.Mininet.{Mininet}
use smoothie.Network.Strategies.{Plan, is_valid, next_free, host_address}

module _ (mn : Mininet) (plan : Plan) where
  next_free_lem :
      (ips used left : List String) (ip : String)
      → next_free mn plan ips used ≡ ok (ip, left)
      → contains ip used ≡ false
  unfolding next_free
  next_free_lem [] used left ip h = cc h
  next_free_lem (x ∷ ips) used left ip h = elim (Bool-cases (contains x used)) [
    | inl q ↦ next_free_lem ips used left ip (rw q at h)
    | inr q ↦
        let same : ◌≡◌ {A = Result (String × List String)} (ok (x, ips)) (ok (ip, left)) =
          rw q at h in
        let here : x ≡ ip = cc same in rw here at q
  ]

  contains-append :
      (xs ys : List String) (x : String) → contains x (xs ++ ys) ≡ (contains x xs || contains x ys)
  contains-append [] ys x = refl
  contains-append (z ∷ xs) ys x = ground (arith, contains-append xs ys x)

  -- An address that a strategy gives to a host is not assigned yet; and where the host's name has no
  -- number, it is not reserved for another host either.
  pub host_address_fresh :
      (reserved : Dict String String) (assigned ips left : List String) (host ip : String)
      (valid : Bool)
      → is_valid mn plan host ≡ ok valid
      → host_address mn plan reserved assigned ips host ≡ ok (ip, left)
      → (contains ip assigned ≡ false)
        × ((valid || not (contains ip (map (λ p. p.1) reserved))) ≡ true)
  unfolding host_address
  host_address_fresh reserved assigned ips left host ip true v h =
      elim (Option-cases (get reserved host)) [
        | inl q ↦ cc (rw (host_address, v, q) at h)
        | inr (a, q) ↦ elim (Bool-cases (contains a assigned)) [
          | inl r ↦ cc (rw (host_address, v, q, r) at h)
          | inr r ↦
              let same : ◌≡◌ {A = Result (String × List String)} (ok (a, ips)) (ok (ip, left)) =
                rw (host_address, v, q, r) at h in
              let here : a ≡ ip = cc same in (rw here at r, refl)
        ]
      ]
  host_address_fresh reserved assigned ips left host ip false v h =
      let free =
        next_free_lem ips (assigned ++ map (λ p. p.1) reserved) left ip
          (rw (host_address, v) at h) in
      let parts = contains-append assigned (map (λ p. p.1) reserved) ip in
      (ground (arith, free, parts), ground (arith, free, parts))
