-- ===== src/Network/Start/Writes.antt =====
-- What a loop of commands writes, and that it changes nothing else.
use mathlib.Core.List.{Memᴰ, append-nil, append_assoc}
use mathlib.Core.List.Memᴰ
use mathlib.Core.Logic.{⊎_elim}
use mathlib.Core.Path.{subst}
use smoothie.Base.{
  String, ◌≡◌, refl, ◌∙◌, ◌≢◌, ◌↔◌, inl, inr, List, [], ◌∷◌, ◌++◌, arith, if◌then◌else◌, ◌==◌,
  nat_eq, string_eq, pair_eq, Bool-cases,
}
use smoothie.Base.Error.{ok}
use smoothie.Base.Exec.{Exec, pure, ◌>>=◌, ◌>>◌}
use smoothie.Network.Start.{Boot, Action, act, for_each}
use smoothie.Network.Start.Hosts.{unless_same}

module _ (b : Boot) where
  -- a call that returns, and writes actions with the property, each of them, and no others
  abbrev pub Writes : Exec Boot (Unit {0}) → (Action → Type 0) → Type 0
  Writes m P =
      (l : List Action)
      → (out : List Action) × (m (record b { log = l }) ≡ (ok tt, record b { log = l ++ out }))
        × ((a : Action) → Memᴰ a out ↔ P a)

  pub skip-Writes : Writes (pure tt) (λ a. ⊥)
  skip-Writes l = ([], rw (append-nil) refl, λ a. (λ m. elim m [ ], λ h. absurd h))

  pub act-Writes : (x : Action) → Writes (act x) (λ a. a ≡ x)
  unfolding act
  act-Writes x l = (x ∷ [], refl, λ a. (λ m. Memᴰ.eq_of_singleton m, λ e. Memᴰ.head e))

  module _ {A : Type 0} (body : A → Exec Boot (Unit {0})) (P : A → Action → Type 0) where
    pub for_each-Writes :
        (xs : List A)
        → ((x : A) → Memᴰ x xs → Writes (body x) (P x))
        → Writes (for_each xs body) (λ a. (x : A) × Memᴰ x xs × P x a)
    unfolding for_each
    for_each-Writes [] h l = (
      [],
      rw (append-nil) refl,
      λ a. (λ m. elim m [ ], λ (x : (y : A) × Memᴰ y [] × P y a). elim x.1 [ ]),
    )
    for_each-Writes (x ∷ xs) h l =
        let (out, e, k) = h x (Memᴰ.head refl) l in
        let (rest, f, r) = for_each-Writes xs (λ y m. h y (Memᴰ.tail m)) (l ++ out) in
        (
          out ++ rest,
          rw (e, ◌>>◌, ◌>>=◌) (f ∙ rw append_assoc refl),
          λ a. (
            λ m.
                ⊎_elim (λ u. (x, Memᴰ.head refl, (k a).0 u))
                  (λ u. let (y, v, p) = (r a).0 u in (y, Memᴰ.tail v, p)) (Memᴰ.append_cases out m),
            λ (y, v, p).
                ⊎_elim (λ q. Memᴰ.append_left rest ((k a).1 (subst (λ z. P z a) q p)))
                  (λ u. Memᴰ.append_right out ((r a).1 (y, u, p))) (Memᴰ.cases_cons v),
          ),
        )

  module _ (m : Exec Boot (Unit {0})) (P : Action → Type 0) (n k : String) where
    pub unless_same-Writes : (n ≢ k → Writes m P) → Writes (unless_same n k m) (λ a. (n ≢ k) × P a)
    unfolding unless_same
    unless_same-Writes writes l = elim (Bool-cases (n == k)) [
      | inl e ↦
          let (out, q, r) = skip-Writes l in
          (
            out,
            rw e q,
            λ a. (λ u. absurd ((r a).0 u), λ h. absurd (h.0 ((string_eq.beq_iff n k).0 e))),
          )
      | inr e ↦
          let (out, q, r) = writes (λ f. ground (arith, e, string_eq.beq_iff n k)) l in
          (
            out,
            rw e q,
            λ a.
                (λ u. (λ f. ground (arith, e, string_eq.beq_iff n k), (r a).0 u), λ h. (r a).1 h.1),
          )
    ]

    pub where_same-Writes : Writes m P → Writes (if n == k then m else pure tt) (λ a. (n ≡ k) × P a)
    where_same-Writes writes l = elim (Bool-cases (n == k)) [
      | inl e ↦
          let (out, q, r) = writes l in
          (out, rw e q, λ a. (λ u. ((string_eq.beq_iff n k).0 e, (r a).0 u), λ h. (r a).1 h.1))
      | inr e ↦
          let (out, q, r) = skip-Writes l in
          (
            out,
            rw e q,
            λ a. (λ u. absurd ((r a).0 u), λ h. ground (arith, e, h.0, string_eq.beq_iff n k)),
          )
    ]

  -- what is read before, without an exception
  pub reads-Writes :
      {A : Type 0} (q : Exec Boot A) (k : A → Exec Boot (Unit {0})) (P : Action → Type 0) {x : A}
      → ((l : List Action) → q (record b { log = l }) ≡ (ok x, record b { log = l }))
      → Writes (k x) P
      → Writes (q >>= k) P
  reads-Writes q k P e h l = let (out, f, c) = h l in (out, rw (e l, ◌>>=◌) f, c)
