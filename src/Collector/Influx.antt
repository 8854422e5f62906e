-- ===== src/Collector/Influx.antt =====
-- src/int_collector_influx.py, class `IntCollector`: the documents that reports become. The data base
-- and the clock are outside of the model; a time is a number of clock ticks.
pub mod Documents
pub mod Send
use smoothie.Base.{
  ℕ, ◌+◌, String, ◌||◌, Option, none, some, List, [], ◌∷◌, ◌++◌, map, arith, ltb, if◌then◌else◌,
  nat_eq, string_eq, pair_eq, length,
}
use smoothie.Base.Dict.{Dict, get, put}
use mathlib.Core.Option as Option
use mathlib.Core.List.{reverse}
use smoothie.Base.Error.{attribute_error, index_error, Result, ok, err}
use smoothie.Base.Exec.{pure, Exec, ◌>>=◌, ◌>>◌}
use smoothie.Base.Int.{ℤ, sub_ℕ}
use smoothie.Collector.Hop.{HopMetadata}
use smoothie.Collector.Report.Flow.{FlowId}
use smoothie.Collector.Report.{IntReport}

-- floats, as the fields of a document have them
pub record Floats : Type 1 where
  pub Float : Type 0
  pub of_ℕ : ℕ → Float
  pub of_ℤ : ℤ → Float
  pub sub : Float → Float → Float

pub data Field (fl : Floats) : Type 0 where
  whole : ℤ → Field fl
  float : fl.Float → Field fl

-- a document: the flow, the place of the hop if it is about one, the time, and the fields
pub record Document (fl : Floats) : Type 0 where
  pub tags : FlowId
  pub hop_index : Option ℕ
  pub time : ℕ
  pub fields : Dict String (Field fl)

-- a flow with the place of a hop: `(*flow_key, index)`
pub record IntCollector : Type 0 where
  pub reports : List IntReport
  pub last_dstts : Dict String ℕ
  pub last_reordering : Dict String ℕ
  pub last_hop_ingress_timestamp : Dict (String × ℕ) ℕ
  pub last_hop_delay : ℕ
  pub period : ℕ
  pub last_send : ℕ

-- `__init__`, at a time
unfoldable pub init : ℕ → ℕ → IntCollector
init period now = record {
  reports = [];
  last_dstts = [];
  last_reordering = [];
  last_hop_ingress_timestamp = [];
  last_hop_delay = 0;
  period = period;
  last_send = now;
}

-- `add_report`: the time is read for the test, and again behind it. The reports are not sent.
unfoldable pub add_report : ℕ → ℕ → IntReport → IntCollector → IntCollector
add_report now later report c =
    let reports = c.reports ++ (report ∷ []) in
    if ltb 100 (length reports) || ltb (c.last_send + c.period) now
    then record c { reports = reports; last_send = later }
    else record c { reports = reports }

unfoldable pub last_hop : List HopMetadata → Option HopMetadata
last_hop [] = none
last_hop (h ∷ []) = some h
last_hop (h ∷ k ∷ hs) = last_hop (k ∷ hs)

-- the timestamps of the source and of the sink, or 0 for both where one of them is missing
unfoldable pub end_timestamps : List HopMetadata → ℕ × ℕ
end_timestamps [] = (0, 0)
end_timestamps (h ∷ hs) = elim (last_hop (h ∷ hs)) [
  | none ↦ (0, 0)
  | some l ↦ elim l.ingress_timestamp [
    | none ↦ (0, 0)
    | some origin ↦ elim h.ingress_timestamp [
      | none ↦ (0, 0)
      | some destination ↦ (origin, destination)
    ]
  ]
]

-- a field where there is a value
unfoldable pub field_if :
    {fl : Floats} → String → Option (Field fl) → Dict String (Field fl) → Dict String (Field fl)
field_if key none fields = fields
field_if key (some v) fields = put fields key v

module _ (fl : Floats) where
  open fl use {of_ℕ, of_ℤ, sub}

  -- `__prepare_e2e_report`
  unfoldable pub prepare_e2e_report :
      ℕ → IntReport → String → IntCollector → Document fl × IntCollector
  prepare_e2e_report time report flow_key c =
      let (origin, destination) = end_timestamps report.hops.hop_metadata in
      let fields : Dict String (Field fl) =
        ("origts", float (of_ℕ origin))
        ∷ ("dstts", float (of_ℕ destination))
        ∷ ("seq", float (of_ℕ report.seq_num))
        ∷ ("delay", float (of_ℤ (sub_ℕ destination origin)))
        ∷ [] in
      let jitter =
        Option.map (λ l. float (sub (of_ℕ destination) (of_ℕ l))) (get c.last_dstts flow_key) in
      let reordering =
        Option.map (λ l. float (sub (sub (of_ℕ report.seq_num) (of_ℕ l)) (of_ℕ 1)))
          (get c.last_reordering flow_key) in
      (
        record {
          tags = report.flow_id;
          hop_index = none;
          time = time;
          fields = field_if "reordering" reordering (field_if "sink_jitter" jitter fields);
        },
        record c {
          last_dstts = put c.last_dstts flow_key destination;
          last_reordering = put c.last_reordering flow_key report.seq_num;
        },
      )

  -- `hop_jitter`: where the last timestamp is known and that of the hop is missing, it raises.
  unfoldable pub hop_jitter : Option ℕ → HopMetadata → Result (Option (Field fl))
  hop_jitter none hop = ok none
  hop_jitter (some l) hop = elim hop.ingress_timestamp [
    | none ↦ err attribute_error
    | some t ↦ ok (some (whole (sub_ℕ t l)))
  ]

  -- `__prepare_hop_report`
  unfoldable pub prepare_hop_report :
      ℕ → IntReport → ℕ → HopMetadata → String → Exec IntCollector (Document fl)
  prepare_hop_report time report i hop flow_key c =
      elim (hop_jitter (get c.last_hop_ingress_timestamp (flow_key, i)) hop) [
        | err x ↦ (err x, c)
        | ok jitter ↦
            let latency = Option.map (λ l. whole (ℤ.pos l)) hop.hop_latency in
            let link =
              if ltb 0 i
              then Option.map (λ t. whole (sub_ℕ t c.last_hop_delay)) hop.ingress_timestamp
              else none in
            (
              ok (record {
                tags = report.flow_id;
                hop_index = some i;
                time = time;
                fields =
                    field_if "link_delay" link
                      (field_if "hop_delay" latency (field_if "hop_jitter" jitter []));
              }),
              elim hop.ingress_timestamp [
                | none ↦ c
                | some t ↦ record c {
                  last_hop_delay = if ltb 0 i then t else c.last_hop_delay;
                  last_hop_ingress_timestamp = put c.last_hop_ingress_timestamp (flow_key, i) t;
                }
              ],
            )
      ]

  -- the documents of the hops, from the place `i` on; `clock` gives the times
  unfoldable pub prepare_hops :
      (ℕ → ℕ) → IntReport → String → ℕ → List HopMetadata → Exec IntCollector (List (Document fl))
  prepare_hops clock report flow_key i [] = pure []
  prepare_hops clock report flow_key i (h ∷ hs) = do
    d ← prepare_hop_report (clock (i + 1)) report i h flow_key
    ds ← prepare_hops clock report flow_key (i + 1) hs
    pure (d ∷ ds)

  -- `__prepare_reports`, with the text that stands for the flow
  unfoldable pub prepare_reports :
      (ℕ → ℕ) → IntReport → String → Exec IntCollector (List (Document fl))
  prepare_reports clock report flow_key c =
      let (d, c1) = prepare_e2e_report (clock 0) report flow_key c in
      elim (last_hop report.hops.hop_metadata) [
        | none ↦ (err index_error, c1)
        | some l ↦ elim l.ingress_timestamp [
          | none ↦ (err attribute_error, c1)
          | some t ↦
              (do
                ds ← prepare_hops clock report flow_key 0 (reverse report.hops.hop_metadata)
                pure (d ∷ ds))
                (record c1 { last_hop_delay = t })
        ]
      ]
