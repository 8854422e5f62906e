-- ===== src/Collector/NetGraph/Export/Slots.antt =====
-- Which switches `export_path` can reach, and what it leaves there.
use smoothie.Base.{
  ◌⊎◌, ◌++◌, ℕ, zero, suc, ◌≤◌, ◌≡◌, refl, sym, ap, ◌∙◌, inl, inr, Option, none, some, List, [],
  ◌∷◌, arith, nat_eq, string_eq, pair_eq, Option-cases, length, get_elem?, set, drop,
}
use smoothie.Base.Error.{Result, index_error, ok, err, Result-cases}
use mathlib.Core.Path.{subst}
use smoothie.Collector.NetGraph.Env.{Env, NetGraph, Entry}
use smoothie.Collector.NetGraph.Export.{export_path, entry_for, install, client_for, last}

get_elem?-none {ℓ} : {A : Type ℓ} (xs : List A) (i : ℕ) → length xs ≤ i → get_elem? xs i ≡ none
get_elem?-none [] i h = refl
get_elem?-none (x ∷ xs) zero h = absurd (omega arith)
get_elem?-none (x ∷ xs) (suc i) h = get_elem?-none xs i (omega arith)

get_elem?-set_self {ℓ} :
    {A : Type ℓ} (xs : List A) (i : ℕ) (v w : A)
    → get_elem? xs i ≡ some w
    → get_elem? (set xs i v) i ≡ some v
get_elem?-set_self [] i v w h = cc
get_elem?-set_self (x ∷ xs) zero v w h = refl
get_elem?-set_self (x ∷ xs) (suc i) v w h = get_elem?-set_self xs i v w h

module _ (env : Env) where
  -- A switch whose id is not below the number of slots has none: an export to it raises an
  -- `IndexError`, and nothing changes.
  pub export_path_no_slot :
      (g : NetGraph env) (p : List ℕ) (id_s port : ℕ)
      → length g.thrift_switches ≤ id_s
      → export_path env p id_s port g ≡ (err index_error, g)
  unfolding export_path
  export_path_no_slot g p id_s port h = rw (get_elem?-none g.thrift_switches id_s h, export_path)

  -- the entry of a path: it is found by the last segment, and has all of them
  abbrev pub IsEntry : List ℕ → Entry → Type 0
  IsEntry p e =
      (e.segments ≡ p)
      × (e.action_size ≡ length p)
      × ((before : List ℕ) × (p ≡ before ++ e.match_key ∷ []))

  -- the client `c` has changed its entry to `e`, or else added `e`
  abbrev pub Written : env.Client → Entry → env.Client → Type 0
  Written c e c' =
      (env.table_modify_match c e ≡ some c')
      ⊎ ((env.table_modify_match c e ≡ none) × (env.table_add c e ≡ ok c'))

  last_lem : (p : List ℕ) (x : ℕ) → last env p ≡ ok x → (b : List ℕ) × (p ≡ b ++ x ∷ [])
  unfolding last
  last_lem [] x h = cc h
  last_lem (y ∷ []) x h = let e : y ≡ x = cc h in ([], rw e refl)
  last_lem (y ∷ z ∷ p) x h = let (b, e) = last_lem (z ∷ p) x h in (y ∷ b, ap (λ r. y ∷ r) e)

  entry_for-IsEntry : (p : List ℕ) (e : Entry) → entry_for env p ≡ ok e → IsEntry p e
  unfolding entry_for
  entry_for-IsEntry p e h = elim (Result-cases (last env p)) [
    | inr (x, q) ↦ cc (rw (q, entry_for) at h)
    | inl (dst, q) ↦
        let made : Entry = record { match_key = dst; action_size = length p; segments = p } in
        let same : ◌≡◌ {A = Result Entry} (ok made) (ok e) = rw (q, entry_for) at h in
        let is_made : made ≡ e = cc same in subst (IsEntry p) is_made (refl, refl, last_lem p dst q)
  ]

  install-Written :
      (c : env.Client) (e : Entry) (c' : env.Client) → install env c e ≡ ok c' → Written c e c'
  unfolding install
  install-Written c e c' h = elim (Option-cases (env.table_modify_match c e)) [
    | inl q ↦ inr (q, rw (q, install) at h)
    | inr (d, q) ↦
        let same : ◌≡◌ {A = Result env.Client} (ok d) (ok c') = rw (q, install) at h in
        let here : d ≡ c' = cc same in inl (q ∙ ap some here)
  ]

  client_for_lem :
      (kept : Option env.Client) (port : ℕ)
      → client_for env kept port ≡ (elim kept [ none ↦ env.connect port | some c ↦ c ])
  unfolding client_for
  client_for_lem none port = refl
  client_for_lem (some c) port = refl

  -- An export that succeeds has written an entry with the segments of its path, but for the first,
  -- under the last of them: to the client that was kept for the switch, or else to a new one on
  -- `port`. The entry is changed, or added where the client has none; and only the slot of that
  -- switch changes.
  pub export_path-ok :
      (g : NetGraph env) (p : List ℕ) (id_s port : ℕ) {g' : NetGraph env}
      → export_path env p id_s port g ≡ (ok tt, g')
      → (e : Entry) × (c' : env.Client) × (kept : Option env.Client) × IsEntry (drop 1 p) e
        × (get_elem? g.thrift_switches id_s ≡ some kept)
        × Written (elim kept [ none ↦ env.connect port | some c ↦ c ]) e c'
        × (get_elem? g'.thrift_switches id_s ≡ some (some c'))
        × (g' ≡ record g { thrift_switches = set g.thrift_switches id_s (some c') })
  unfolding export_path
  export_path-ok g p id_s port {g'} e = elim (Option-cases (get_elem? g.thrift_switches id_s)) [
    | inl n ↦ cc (rw (n, export_path) at e)
    | inr (kept, k) ↦ elim (Result-cases (entry_for env (drop 1 p))) [
      | inr (x, q) ↦ cc (rw (k, q, export_path) at e)
      | inl (en, q) ↦ elim (Result-cases (install env (client_for env kept port) en)) [
        | inr (x, i) ↦ cc (rw (k, q, i, export_path) at e)
        | inl (c', i) ↦
            let same = ap (λ r. r.1) (rw (k, q, i, export_path) at e) in
            (
              en,
              c',
              kept,
              entry_for-IsEntry (drop 1 p) en q,
              k,
              subst (λ c. Written c en c') (client_for_lem kept port)
                  (install-Written (client_for env kept port) en c' i),
              ap (λ (h : NetGraph env). get_elem? h.thrift_switches id_s) (sym same)
                  ∙ get_elem?-set_self g.thrift_switches id_s (some c') kept k,
              sym same,
            )
      ]
    ]
  ]
