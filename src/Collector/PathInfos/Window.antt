-- ===== src/Collector/PathInfos/Window.antt =====
-- `path_infos` against the history of all the samples: the ring holds the last `size` of them.
use smoothie.Base.{
  ℕ, zero, suc, ◌+◌, ◌-◌, ◌%◌, ◌<◌, min, ◌≡◌, refl, ap, ◌∙◌, ◌≢◌, ◌⊎◌, Option, none, some, List, [],
  ◌∷◌, arith, ltb, if◌then◌else◌, nat_eq, string_eq, pair_eq, length, get_or, set, length-set,
  length-replicate, get_or-set_self, get_or-set_ne,
}
use smoothie.Base.Error.{ok}
use smoothie.Collector.PathInfos.{PathInfos, init, add_weight, first_time, written}

-- the place of the sample before which `i` others were added
abbrev pub slot : ℕ → ℕ → ℕ → ℕ
slot size index i = if ltb i index then index - 1 - i else index + size - 1 - i

next_index :
    (i n : ℕ) → i < n → (((i + 1) % n ≡ i + 1) × (i + 1 < n)) ⊎ (((i + 1) % n ≡ 0) × (i + 1 ≡ n))
next_index i n h = grind arith

slot-zero : (n i : ℕ) → i < n → slot n ((i + 1) % n) 0 ≡ i
slot-zero n i h = ground (arith, next_index i n h)

slot-suc : (n i k : ℕ) → i < n → k + 1 < n → slot n ((i + 1) % n) (suc k) ≡ slot n i k
slot-suc n i k h hk = ground (arith, next_index i n h)

slot-ne : (n i k : ℕ) → i < n → k + 1 < n → i ≢ slot n i k
slot-ne n i k h hk = ground arith

slot-lt : (n i k : ℕ) → i < n → k < n → slot n i k < n
slot-lt n i k h hk = ground arith

module _ {ℓ} {A : Type ℓ} (xs : List A) (n i : ℕ) where
  slot_new : (a d : A) → i < n → length xs ≡ n → get_or (set xs i a) (slot n ((i + 1) % n) 0) d ≡ a
  slot_new a d h e = rw (slot-zero n i h) (get_or-set_self xs i a d (omega arith))

  slot_old :
      (k : ℕ) (a d : A)
      → i < n
      → k + 1 < n
      → get_or (set xs i a) (slot n ((i + 1) % n) (suc k)) d ≡ get_or xs (slot n i k) d
  slot_old k a d h hk =
      rw (slot-suc n i k h hk) (get_or-set_ne xs i (slot n i k) a d (slot-ne n i k h hk))

module _ {ℓ} {W : Type ℓ} where
  abbrev pub weight_at : List (W × ℕ) → ℕ → Option W
  weight_at [] i = none
  weight_at ((w, t) ∷ h) zero = some w
  weight_at ((w, t) ∷ h) (suc i) = weight_at h i

  abbrev pub time_at : List (W × ℕ) → ℕ → ℕ
  time_at [] i = 0
  time_at ((w, t) ∷ h) zero = t
  time_at ((w, t) ∷ h) (suc i) = time_at h i

  -- `p` holds the last samples of the history `h`, which has the newest first.
  pub record Holds (p : PathInfos W) (h : List (W × ℕ)) : Type ℓ where
    pub index_in : p.index < p.size
    pub weights_size : length p.weights ≡ p.size
    pub times_size : length p.times ≡ p.size
    pub count : p.len ≡ min (length h) p.size
    pub weight : (i : ℕ) → i < p.len → get_or p.weights (slot p.size p.index i) none ≡ weight_at h i
    pub time : (i : ℕ) → i < p.len → get_or p.times (slot p.size p.index i) 0 ≡ time_at h i
    pub oldest : p.first_t ≡ time_at h (p.len - 1)
    pub newest : p.last_t ≡ time_at h 0

module _ {ℓ} {W : Type ℓ} where
  -- A fresh ring of positive size holds the empty history.
  pub init-Holds : (size : ℕ) → 0 < size → Holds (init {W = W} size) []
  unfolding init
  init-Holds size h = record {
    index_in = h;
    weights_size = length-replicate size none;
    times_size = length-replicate size 0;
    count = omega arith;
    weight = λ i hi. absurd (omega arith);
    time = λ i hi. absurd (omega arith);
    oldest = refl;
    newest = refl;
  }

  module _ (p : PathInfos W) (h : List (W × ℕ)) (w : W) (t : ℕ) (v : Holds p h) where
    written_weight :
        (i : ℕ)
        → i < min (p.len + 1) p.size
        → get_or (set p.weights p.index (some w)) (slot p.size ((p.index + 1) % p.size) i) none
          ≡ weight_at ((w, t) ∷ h) i
    written_weight zero hi =
        slot_new p.weights p.size p.index (some w) none v.index_in v.weights_size
    written_weight (suc k) hi =
        slot_old p.weights p.size p.index k (some w) none v.index_in (omega arith)
        ∙ v.weight k (omega arith)

    written_time :
        (i : ℕ)
        → i < min (p.len + 1) p.size
        → get_or (set p.times p.index t) (slot p.size ((p.index + 1) % p.size) i) 0
          ≡ time_at ((w, t) ∷ h) i
    written_time zero hi = slot_new p.times p.size p.index t 0 v.index_in v.times_size
    written_time (suc k) hi =
        slot_old p.times p.size p.index k t 0 v.index_in (omega arith) ∙ v.time k (omega arith)

    -- the place that the next sample will overwrite is that of the oldest one
    slot_oldest :
        p.len ≡ p.size → (p.index + 1) % p.size ≡ slot p.size ((p.index + 1) % p.size) (p.size - 1)
    slot_oldest full = ground (arith, next_index p.index p.size v.index_in, v.index_in)

    oldest_full :
        p.len ≡ p.size
        → get_or (set p.times p.index t) ((p.index + 1) % p.size) 0
          ≡ time_at ((w, t) ∷ h) (p.size - 1)
    oldest_full full =
        ap (λ j. get_or (set p.times p.index t) j 0) (slot_oldest full)
        ∙ written_time (p.size - 1) (omega (arith, v.index_in))

    oldest_kept : (n : ℕ) → p.len ≡ suc n → p.first_t ≡ time_at ((w, t) ∷ h) p.len
    oldest_kept n e = v.oldest ∙ rw e (ap (time_at h) (omega arith))

    written_oldest :
        first_time p (set p.times p.index t) t ≡ time_at ((w, t) ∷ h) (min (p.len + 1) p.size - 1)
    unfolding first_time
    written_oldest = ground (arith, oldest_full, oldest_kept (p.len - 1), v.index_in)

    written-Holds : Holds (written p w t) ((w, t) ∷ h)
    unfolding written
    written-Holds = record {
      index_in = ground (arith, next_index p.index p.size v.index_in, v.index_in);
      weights_size = length-set p.weights p.index (some w) ∙ v.weights_size;
      times_size = length-set p.times p.index t ∙ v.times_size;
      count = omega (arith, v.count);
      weight = written_weight;
      time = written_time;
      oldest = written_oldest;
      newest = refl;
    }

    -- To a ring that holds a history a sample can be added, and the ring then holds the history
    -- with that sample: its last `size` samples, and the time of the oldest of them.
    pub add_weight-Holds : (q : PathInfos W) × (add_weight p w t ≡ ok q) × Holds q ((w, t) ∷ h)
    unfolding add_weight
    add_weight-Holds =
        let room : p.index < length p.weights = omega (arith, v.index_in, v.weights_size) in
        (written p w t, ground arith, written-Holds)
