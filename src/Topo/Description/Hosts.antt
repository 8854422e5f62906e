-- ===== src/Topo/Description/Hosts.antt =====
-- src/topos/TopoGenerator.py: the numbers and addresses of the hosts.
use Prim.Native.String.{◌++◌ as append}
use smoothie.Base.{
  ℕ, zero, suc, ◌+◌, ◌-◌, ◌*◌, ◌%◌, ◌≤◌, ◌<◌, String, ◌≡◌, refl, ap, inl, inr, List, [], ◌∷◌, ◌++◌,
  map, arith, if◌then◌else◌, nat_eq, string_eq, pair_eq, Bool-cases,
}
use smoothie.Topo.{range}
use smoothie.Topo.Commands.{Texts, host_ip, starts_with2}
use smoothie.Topo.Description.{Row, full, leaf_rows, host_rows}

module _ (t : Texts) (hosts_per_leaf : ℕ) where
  -- host `x` of a leaf that `k` leaves stand before
  pub plain_row : String → ℕ → ℕ → ℕ → (String × String) × Row
  plain_row n id_s k x =
      let ip = append "10.0." (append (t.str id_s) (append "." (t.str x))) in
      let h = append "H" (t.str (k * hosts_per_leaf + x)) in
      ((h, ip), full n h (t.mac_of ip 1) (t.mac_of ip 0))

  -- the hosts leaf by leaf, with the number of leaves so far and no counter of hosts
  unfoldable pub plain_rows : ℕ → ℕ → List String → List ((String × String) × Row)
  plain_rows id_s k [] = []
  plain_rows id_s k (n ∷ ns) =
      let leaf = starts_with2 n "LE" in
      let rows = if leaf then map (plain_row n id_s k) (range 1 hosts_per_leaf) else [] in
      rows ++ plain_rows (id_s + 1) (if leaf then k + 1 else k) ns

  within_leaf : (k a : ℕ) → a < hosts_per_leaf → (k * hosts_per_leaf + a) % hosts_per_leaf ≡ a
  within_leaf k a h = grind arith

  leaf_rows_lem :
      (n : String) (id_s k a m : ℕ)
      → 0 < a
      → a + m ≤ hosts_per_leaf + 1
      → leaf_rows t hosts_per_leaf n id_s (k * hosts_per_leaf + a) (range a m)
        ≡ map (plain_row n id_s k) (range a m)
  unfolding leaf_rows range plain_row host_ip
  leaf_rows_lem n id_s k a zero h b = refl
  leaf_rows_lem n id_s k a (suc m) h b =
      let same : (k * hosts_per_leaf + a - 1) % hosts_per_leaf + 1 ≡ a =
        (let e : k * hosts_per_leaf + a - 1 ≡ k * hosts_per_leaf + (a - 1) = omega (arith, h) in
          rw e (omega (arith, within_leaf k (a - 1) (omega (arith, h, b)), h))) in
      let next : k * hosts_per_leaf + a + 1 ≡ k * hosts_per_leaf + (a + 1) = omega arith in
      rw (same, next)
        (ap (λ r. plain_row n id_s k a ∷ r)
          (leaf_rows_lem n id_s k (a + 1) m (omega arith) (omega (arith, b))))

  -- The counter of hosts with its remainder numbers the hosts as the plain recursion over the leaves
  -- does: host `x` of a leaf has the last byte `x`, and its number counts the hosts of all the leaves
  -- before; a leaf has at least one host.
  pub host_rows-plain :
      (id_s k : ℕ) (names : List String)
      → 0 < hosts_per_leaf
      → host_rows t hosts_per_leaf id_s (k * hosts_per_leaf + 1) names ≡ plain_rows id_s k names
  unfolding host_rows plain_rows
  host_rows-plain id_s k [] h = refl
  host_rows-plain id_s k (n ∷ names) h =
      let rows = leaf_rows_lem n id_s k 1 hosts_per_leaf (omega arith) (omega arith) in
      let next : k * hosts_per_leaf + 1 + hosts_per_leaf ≡ (k + 1) * hosts_per_leaf + 1 =
        grind arith in
      elim (Bool-cases (starts_with2 n "LE")) [
        | inl e ↦
            rw (e, rows, next)
              (ap (λ r. map (plain_row n id_s k) (range 1 hosts_per_leaf) ++ r)
                (host_rows-plain (id_s + 1) (k + 1) names h))
        | inr e ↦ rw e (host_rows-plain (id_s + 1) k names h)
      ]
