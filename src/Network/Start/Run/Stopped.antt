-- ===== src/Network/Start/Run/Stopped.antt =====
-- src/Network_API_l.py: how a network ends.
use mathlib.Core.List.{append-nil, append_assoc}
use smoothie.Base.{
  ℕ, ◌≡◌, refl, ◌∙◌, inl, inr, Bool, false, none, some, List, [], ◌∷◌, ◌++◌, map, if◌then◌else◌,
  nat_eq, string_eq, pair_eq, Bool-cases,
}
use smoothie.Base.Error.{ok}
use smoothie.Base.Exec.{◌>>=◌, ◌>>◌}
use smoothie.Network.Mininet.{Mininet}
use smoothie.Network.Start.{Boot, World, Action, opens_cli, benchmarks, kills, stops, act, for_each}
use smoothie.Network.Start.Run.{stop_exec_scripts, stop_network}

kill_all :
    (pids : List ℕ) (s : Boot)
    → for_each pids (λ pid. act (kills pid)) s ≡ (ok tt, record s { log = s.log ++ map kills pids })
unfolding for_each act
kill_all [] s = rw (append-nil) refl
kill_all (pid ∷ pids) s =
    kill_all pids (record s { log = s.log ++ kills pid ∷ [] }) ∙ rw append_assoc refl

module _ (mn : Mininet) (w : World) where
  -- `stops`, where there is a network
  abbrev pub ending : Boot → List Action
  ending s = if elim s.net [ none ↦ false | some net ↦ w.net_truth net ] then stops ∷ [] else []

  -- Stopping a network kills each script that was run, and then stops what is running; nothing else
  -- is done, and it cannot fail.
  pub stop_network_lem :
      (s : Boot)
      → stop_network mn w s
        ≡ (ok tt, record s { log = s.log ++ (map kills s.scripts_pids ++ ending s) })
  unfolding stop_network stop_exec_scripts act
  stop_network_lem s =
      let there : Bool = elim s.net [ none ↦ false | some net ↦ w.net_truth net ] in
      rw (kill_all s.scripts_pids s, ◌>>◌, ◌>>=◌)
        (elim (Bool-cases there) [
          | inl e ↦ rw (e, append_assoc) refl
          | inr e ↦ rw (e, append-nil) refl
        ])

  -- the CLI where it is enabled, and the benchmark where not
  abbrev pub used : Boot → Action
  used s = if s.api.cli_enabled then opens_cli else benchmarks

  -- how a run of `startNetwork` ends
  abbrev pub Ended : Boot → Type 0
  Ended t =
      (before : List Action) × (t.log ≡ before ++ used t ∷ (map kills t.scripts_pids ++ ending t))
      × (t.api.tasks ≡ [])
