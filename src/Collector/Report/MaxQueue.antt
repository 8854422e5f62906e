-- ===== src/Collector/Report/MaxQueue.antt =====
-- `max_qdepth` and `trend` of a report: the fullest queue on the way of the packet.
use smoothie.Base.{
  ℕ, zero, suc, ◌+◌, ◌≤◌, ◌<◌, ◌≡◌, refl, ap, ◌⊎◌, inl, inr, none, some, List, [], ◌∷◌, ◌++◌, arith,
  ltb, nat_eq, string_eq, pair_eq, Bool-cases, Option-cases, length, length-append, All, All-snoc,
  All-imp,
}
use mathlib.Core.List.{append_assoc}
use smoothie.Base.Bytes.{Bytes}
use smoothie.Collector.Hop.{HopMetadata, parse_hop}
use smoothie.Collector.Report.Loop.{Hops, grown, take_hop, hop_loop, parse_hops}

abbrev pub queue : HopMetadata → ℕ
queue hop = elim hop.queue_occupancy [ none ↦ 0 | some q ↦ q ]

abbrev pub queue_trend : HopMetadata → ℕ
queue_trend hop = elim hop.trend [ none ↦ 0 | some t ↦ t ]

-- `hop` is the first of `hops` whose queue holds `q`, the most of all and not 0; its trend is `t`.
pub record IsFirstFullest (hops : List HopMetadata) (q t : ℕ) : Type 0 where
  pub before : List HopMetadata
  pub hop : HopMetadata
  pub after : List HopMetadata
  pub split : hops ≡ before ++ (hop ∷ after)
  pub queue_hop : queue hop ≡ q
  pub trend_hop : queue_trend hop ≡ t
  pub positive : 0 < q
  pub less : All (λ h. queue h < q) before

pub record IsWorst (s : Hops) : Type 0 where
  pub bounded : All (λ h. queue h ≤ s.max_qdepth) s.hop_metadata
  pub attained :
      ((s.max_qdepth ≡ 0) × (s.trend ≡ 0)) ⊎ IsFirstFullest s.hop_metadata s.max_qdepth s.trend

snoc-IsFirstFullest :
    {hops : List HopMetadata} {q t : ℕ} (hop : HopMetadata)
    → IsFirstFullest hops q t
    → IsFirstFullest (hops ++ hop ∷ []) q t
snoc-IsFirstFullest hop h = record {
  before = h.before;
  hop = h.hop;
  after = h.after ++ hop ∷ [];
  split = rw h.split (append_assoc h.before (h.hop ∷ h.after) (hop ∷ []));
  queue_hop = h.queue_hop;
  trend_hop = h.trend_hop;
  positive = h.positive;
  less = h.less;
}

-- a fuller queue takes the place of the fullest one
fuller :
    (s : Hops) (hop : HopMetadata)
    → IsWorst s
    → s.max_qdepth < queue hop
    → IsFirstFullest (s.hop_metadata ++ hop ∷ []) (queue hop) (queue_trend hop)
fuller s hop h more = record {
  before = s.hop_metadata;
  hop = hop;
  after = [];
  split = refl;
  queue_hop = refl;
  trend_hop = refl;
  positive = omega (arith, more);
  less =
      All-imp (λ k. queue k ≤ s.max_qdepth) (λ k. queue k < queue hop) s.hop_metadata
        (λ k p. omega arith) h.bounded;
}

grown-IsWorst : (hop : HopMetadata) (s : Hops) → IsWorst s → IsWorst (grown hop s (queue hop))
unfolding grown
grown-IsWorst hop s h = elim (Bool-cases (ltb s.max_qdepth (queue hop))) [
  | inl more ↦ rw more (record {
    bounded =
        All-snoc (λ k. queue k ≤ queue hop) s.hop_metadata hop
          (All-imp (λ k. queue k ≤ s.max_qdepth) (λ k. queue k ≤ queue hop) s.hop_metadata
            (λ k p. ground arith) h.bounded)
          (omega arith);
    attained = inr (fuller s hop h (ground arith));
  })
  | inr less ↦ rw less (record {
    bounded = All-snoc (λ k. queue k ≤ s.max_qdepth) s.hop_metadata hop h.bounded (ground arith);
    attained = elim h.attained [ inl z ↦ inl z | inr f ↦ inr (snoc-IsFirstFullest hop f) ];
  })
]

take_hop-some :
    (hop : HopMetadata) (s : Hops) {s' : Hops}
    → take_hop hop s ≡ some s'
    → s' ≡ grown hop s (queue hop)
unfolding take_hop
take_hop-some hop s e = ground arith

take_hop-IsWorst :
    (hop : HopMetadata) (s s' : Hops) → take_hop hop s ≡ some s' → IsWorst s → IsWorst s'
take_hop-IsWorst hop s s' e h = rw (take_hop-some hop s e) (grown-IsWorst hop s h)

hop_loop-IsWorst :
    (ins_map int_version n : ℕ) (bs : Bytes) (s : Hops)
    → IsWorst s
    → IsWorst (hop_loop ins_map int_version n bs s)
unfolding hop_loop
hop_loop-IsWorst ins_map v zero bs s h = h
hop_loop-IsWorst ins_map v (suc n) bs s h =
    let (hop, rest) = parse_hop ins_map v bs in
    elim (Option-cases (take_hop hop s)) [
      | inl e ↦ rw (e, hop_loop) h
      | inr (s', e) ↦
          rw (e, hop_loop) (hop_loop-IsWorst ins_map v n rest s' (take_hop-IsWorst hop s s' e h))
    ]

-- Of the hops that were read, none has a fuller queue than `max_qdepth`, and `trend` is that of the
-- first hop whose queue is as full; both are 0 where no queue held anything.
pub parse_hops-IsWorst :
    (ins_map int_version n : ℕ) (bs : Bytes) → IsWorst (parse_hops ins_map int_version n bs)
unfolding parse_hops
parse_hops-IsWorst ins_map v n bs =
    hop_loop-IsWorst ins_map v n bs _ (record { bounded = tt; attained = inl (refl, refl) })

length-grown :
    (hop : HopMetadata) (s : Hops) (q : ℕ)
    → length (grown hop s q).hop_metadata ≡ suc (length s.hop_metadata)
unfolding grown
length-grown hop s q = omega (arith, length-append {0} s.hop_metadata (hop ∷ []))

length-hop_loop :
    (ins_map int_version n : ℕ) (bs : Bytes) (s : Hops)
    → length (hop_loop ins_map int_version n bs s).hop_metadata ≤ n + length s.hop_metadata
unfolding hop_loop
length-hop_loop ins_map v zero bs s = omega arith
length-hop_loop ins_map v (suc n) bs s =
    let (hop, rest) = parse_hop ins_map v bs in
    elim (Option-cases (take_hop hop s)) [
      | inl e ↦ rw (e, hop_loop) (omega arith)
      | inr (s', e) ↦
          rw (e, hop_loop)
            (omega (
              arith,
              length-hop_loop ins_map v n rest s',
              ap (λ (h : Hops). length h.hop_metadata) (take_hop-some hop s e),
              length-grown hop s (queue hop),
            ))
    ]

-- No more hops are kept than the headers announce.
pub length-parse_hops :
    (ins_map int_version n : ℕ) (bs : Bytes)
    → length (parse_hops ins_map int_version n bs).hop_metadata ≤ n
unfolding parse_hops
length-parse_hops ins_map v n bs = omega (
  arith,
  length-hop_loop ins_map v n bs (record { hop_metadata = []; max_qdepth = 0; trend = 0 }),
)
