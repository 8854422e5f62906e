-- ===== src/Network/Start/Compile/Outputs.antt =====
-- src/Network_API_l.py: what the switches have after `compile`.
use mathlib.Core.List.{Memᴰ, append-nil}
use mathlib.Core.List.Memᴰ
use mathlib.Core.Path.{subst}
use smoothie.Base.{
  String, ◌≡◌, refl, sym, ap, ◌∙◌, ◌≢◌, inl, inr, false, none, some, [], ◌∷◌, arith, ◌==◌, nat_eq,
  string_eq, pair_eq, beq_refl, beq_ne, Bool-cases, Option-cases,
}
use smoothie.Base.Dict.{get}
use smoothie.Base.Error.{Result, ok}
use smoothie.Base.Exec.{Exec, pure, lift, ◌>>=◌, ◌>>◌}
use smoothie.Base.Exec.{>>=-eq-ok, Ensures, >>=-Ensures}
use smoothie.Network.Value.{Value, text, Attrs, given, flagged}
use smoothie.Network.Mininet.{Net, Mininet, node_flag}
use smoothie.Network.Ids.{is_tofino}
use smoothie.Network.Nodes.{get_node, update_node}
use smoothie.Network.Nodes.Stored.{Ordinary, ordinary, Some, update_node-get}
use smoothie.Network.Start.{Boot, World, Compiler, on_api, module_of, act, compiles}
use smoothie.Network.Start.Compile.Others.{Later, compiler_of-Keeps, compile_switch-Keeps}
use smoothie.Network.Start.Compile.{
  compile_source, path_of, keep_compiler, compile_with, new_compiler, compiler_of, set_outputs,
  compile_switch,
}

-- A method of the description changes nothing else.
on_api-ok :
    {A : Type 0} (m : Exec Net A) (s t : Boot) (a : A)
    → on_api m s ≡ (ok a, t)
    → (u : Net) × (m s.api ≡ (ok a, u)) × (t ≡ record s { api = u })
on_api-ok {A} m s t a e = (
  (m s.api).1,
  ap (λ (p : Result A × Boot). (p.0, (m s.api).1)) e,
  ap (λ (p : Result A × Boot). p.1) (sym e),
)

one_other : (k j : String) (v : Value) → k ≢ j → get ((k, v) ∷ []) j ≡ none
unfolding get
one_other k j v h = rw (beq_ne k j h) refl

ok-injective {ℓ} : {A : Type ℓ} (a b : A) → ok a ≡ ok b → a ≡ b
ok-injective a b h = cc

text_ne : (a b : String) → (a == b) ≡ false → a ≢ b
text_ne a b h = ground (arith, string_eq.beq_iff a b)

flagged-same : (a n : Attrs) (k : String) → get n k ≡ get a k → flagged n k ≡ flagged a k
unfolding flagged
flagged-same a n k h = rw (h, flagged) refl

one_self : (k : String) (v : Value) → get ((k, v) ∷ []) k ≡ some v
unfolding get
one_self k v = rw (beq_refl k) refl

module _ (mn : Mininet) (w : World) (x path : String) where
  -- the switch has the source, and is no Tofino
  abbrev pub IsSwitch : Attrs → Net → Type 0
  IsSwitch a s =
      (get s.g.node x ≡ some a)
      × (get a "p4_src" ≡ some (text path))
      × (flagged a "isTofino" ≡ false)

  abbrev pub Source : Boot → Type 0
  Source t = (a : Attrs) × IsSwitch a t.api

  -- the compiler whose output the switch has
  abbrev pub BuiltBy : Compiler → Boot → Type 0
  BuiltBy c t =
      Memᴰ c t.compilers
      × (c.p4_src ≡ w.realpath path)
      × ((a : Attrs) × IsSwitch a t.api × (get a "json_path" ≡ some (text c.json_out)))

  -- the switch has what a compiler of its source makes
  abbrev pub Built : Boot → Type 0
  Built t = (c : Compiler) × BuiltBy c t

  -- one output of a switch is set
  update-IsSwitch :
      (a : Attrs) (k v : String) (s t : Net) (b : String)
      → Ordinary k
      → k ≢ "p4_src"
      → k ≢ "isTofino"
      → IsSwitch a s
      → update_node mn x ((k, text v) ∷ []) s ≡ (ok b, t)
      → (n : Attrs) × IsSwitch n t
        × (get n k ≡ some (text v))
        × ((j : String) → Ordinary j → k ≢ j → get n j ≡ get a j)
  update-IsSwitch a k v s t b o p q (there, src, chip) e =
      let opts = (k, text v) ∷ [] in
      let kept =
        λ (j : String) (h : k ≢ j). mn.merge_dict_old a opts j (one_other k j (text v) h) in
      let some_opt : Some (mn.merge_dict a opts) =
        ("p4_src", ordinary "p4_src" refl, (text path, kept "p4_src" p ∙ src)) in
      let (n, f, new, old) = update_node-get mn x opts a b s t there some_opt e in
      let same = λ (j : String) (d : Ordinary j) (h : k ≢ j). old j d (one_other k j (text v) h) in
      (
        n,
        (
          f,
          same "p4_src" (ordinary "p4_src" refl) p ∙ src,
          flagged-same a n "isTofino" (same "isTofino" (ordinary "isTofino" refl) q) ∙ chip,
        ),
        new k (text v) o (one_self k (text v)) refl,
        same,
      )

  -- The switch itself gets the outputs of its compiler.
  HasCompiler : Compiler → Boot → Type 0
  HasCompiler c t = Source t × Memᴰ c t.compilers × (c.p4_src ≡ w.realpath path)

  -- the second output, where there is one
  runtime_output : Compiler → Exec Boot (Unit {0})
  runtime_output c = elim c.p4rt_out [
    | none ↦ pure tt
    | some p ↦ on_api (update_node mn x (("p4rt_path", text p) ∷ [])) >> pure tt
  ]

  runtime_update-Built :
      (c : Compiler) (v : String)
      → Ensures
          (BuiltBy c)
          (on_api (update_node mn x (("p4rt_path", text v) ∷ [])) >> pure tt)
          (λ u t. BuiltBy c t)
  runtime_update-Built c v s t u (m, src, (a, is_switch, json)) e =
      let update = update_node mn x (("p4rt_path", text v) ∷ []) in
      let (b, s1, e1, h1) = >>=-eq-ok (on_api update) (λ b. pure tt) s e in
      let (n, f, g) = on_api-ok update s s1 b e1 in
      let (a1, is1, rt, others) =
        update-IsSwitch a "p4rt_path" v s.api n b (ordinary "p4rt_path" refl)
          (text_ne "p4rt_path" "p4_src" refl) (text_ne "p4rt_path" "isTofino" refl) is_switch f in
      let same =
        others "json_path" (ordinary "json_path" refl) (text_ne "p4rt_path" "json_path" refl) in
      subst (BuiltBy c) (sym g ∙ ap (λ (p : Result Unit × Boot). p.1) h1)
        (m, src, (a1, is1, same ∙ json))

  runtime_output-Built :
      (c : Compiler) → Ensures (BuiltBy c) (runtime_output c) (λ u t. BuiltBy c t)
  unfolding runtime_output
  runtime_output-Built c s t u h e = elim (Option-cases c.p4rt_out) [
    | inl q ↦
        subst (BuiltBy c) (ap (λ (p : Result Unit × Boot). p.1) (rw (q, runtime_output) at e)) h
    | inr (v, q) ↦ runtime_update-Built c v s t u h (rw (q, runtime_output) at e)
  ]

  no_tofino : (a : Attrs) (s : Net) → IsSwitch a s → is_tofino s.g x ≡ ok false
  unfolding is_tofino
  no_tofino a s (there, src, chip) = rw (there, is_tofino, node_flag) (rw chip refl)

  set_outputs_lem :
      (c : Compiler) (a : Attrs) (s : Boot)
      → IsSwitch a s.api
      → set_outputs mn w x c s
        ≡ (on_api (update_node mn x (("json_path", text c.json_out) ∷ [])) >>= λ b.
              runtime_output c)
            s
  unfolding set_outputs runtime_output
  set_outputs_lem c a s is_switch = rw (no_tofino a s.api is_switch, set_outputs) refl

  set_outputs-Built :
      (c : Compiler) → Ensures (HasCompiler c) (set_outputs mn w x c) (λ u t. Built t)
  unfolding HasCompiler
  set_outputs-Built c s t u ((a, is_switch), m, src) e =
      let update = update_node mn x (("json_path", text c.json_out) ∷ []) in
      let (b, s1, e1, h1) =
        >>=-eq-ok (on_api update) (λ b. runtime_output c) s
          (sym (set_outputs_lem c a s is_switch) ∙ e) in
      let (n, f, g) = on_api-ok update s s1 b e1 in
      let (a1, is1, json, others) =
        update-IsSwitch a "json_path" c.json_out s.api n b (ordinary "json_path" refl)
          (text_ne "json_path" "p4_src" refl) (text_ne "json_path" "isTofino" refl) is_switch f in
      let built : BuiltBy c s1 = subst (BuiltBy c) (sym g) (m, src, (a1, is1, json)) in
      (c, runtime_output-Built c s1 t u built h1)

  pub Source-Later : (s t : Boot) → Source s → Later mn w x s t → Source t
  Source-Later s t (a, (there, rest, chip)) (same, more) = (a, (same ∙ there, rest, chip))

  pub Built-Later : (s t : Boot) → Built s → Later mn w x s t → Built t
  Built-Later s t (c, (m, src, (a, (there, rest, chip), json))) (same, (more, grown)) = (
    c,
    (
      subst (λ cs. Memᴰ c cs) (sym grown) (Memᴰ.append_left more m),
      src,
      (a, (same ∙ there, rest, chip), json),
    ),
  )

  here : (s : Boot) → Later mn w x s s
  here s = (refl, ([], sym (append-nil s.compilers)))

  new_compiler-HasCompiler :
      (s t : Boot) (c : Compiler)
      → new_compiler mn w path s ≡ (ok c, t)
      → Memᴰ c t.compilers × (c.p4_src ≡ w.realpath path)
  unfolding new_compiler compile_with keep_compiler
  new_compiler-HasCompiler s t c e =
      let (made, s1, e1, h1) = >>=-eq-ok (module_of "comp" []) (compile_with mn w path) s e in
      let (c', s2, e2, h2) = >>=-eq-ok (lift (w.new_compiler made.0 path made.1)) _ s1 h1 in
      let (u, s3, e3, h3) =
        >>=-eq-ok (act (compiles path)) (λ u. lift (w.compile c') >> keep_compiler mn w c') s2 h2 in
      let (u', s4, e4, h4) = >>=-eq-ok (lift (w.compile c')) (λ u. keep_compiler mn w c') s3 h3 in
      let same : c' ≡ c = ok-injective c' c (ap (λ (p : Result Compiler × Boot). p.0) h4) in
      let kept : Memᴰ c' t.compilers =
        subst (λ (r : Boot). Memᴰ c' r.compilers) (ap (λ (p : Result Compiler × Boot). p.1) h4)
          (Memᴰ.append_right s4.compilers (Memᴰ.head refl)) in
      let src =
        w.new_compiler_src made.0 path made.1 c' (ap (λ (p : Result Compiler × Boot). p.0) e2) in
      subst (λ k. Memᴰ k t.compilers × (k.p4_src ≡ w.realpath path)) same (kept, src)

  compiler_of-found :
      (s t : Boot) (c : Compiler)
      → compiler_of mn w path s ≡ (ok c, t)
      → Memᴰ c t.compilers × (c.p4_src ≡ w.realpath path)
  unfolding compiler_of
  compiler_of-found s t c e = elim (Bool-cases (w.is_compiled (w.realpath path) s.compilers)) [
    | inr new ↦ new_compiler-HasCompiler s t c (rw (new, compiler_of) at e)
    | inl old ↦
        let (k, found, src, m) = w.get_by_src-is_compiled (w.realpath path) s.compilers old in
        let e : ◌≡◌ {A = Result Compiler × Boot} (ok k, s) (ok c, t) =
          (rw (old, found, compiler_of) at e) in
        let same : k ≡ c = ok-injective k c (ap (λ (p : Result Compiler × Boot). p.0) e) in
        subst (λ k. Memᴰ k t.compilers × (k.p4_src ≡ w.realpath path)) same
          (
            subst (λ (r : Boot). Memᴰ k r.compilers) (ap (λ (p : Result Compiler × Boot). p.1) e) m,
            src,
          )
  ]

  compiler_of-HasCompiler : Ensures Source (compiler_of mn w path) HasCompiler
  unfolding compiler_of HasCompiler
  compiler_of-HasCompiler s t c src e =
      let later = compiler_of-Keeps mn w x s path s (here s) in
      let last = ap (λ (p : Result Compiler × Boot). p.1) e in
      let found = compiler_of-found s t c e in
      (Source-Later s t src (subst (Later mn w x s) last later), found.0, found.1)

  given_source :
      (a : Attrs) → get a "p4_src" ≡ some (text path) → given a "p4_src" ≡ some (text path)
  unfolding given
  given_source a e = rw (e, given) refl

  compile_switch_lem :
      (info a : Attrs) (s : Boot)
      → IsSwitch a s.api
      → compile_switch mn w (x, info) s ≡ (compiler_of mn w path >>= set_outputs mn w x) s
  unfolding compile_switch compile_source path_of
  compile_switch_lem info a s (there, src, chip) =
      let got : get_node mn x s.api ≡ (ok a, s.api) =
        (unfold get_node in rw (there, get_node) refl) in
      rw (got, compile_switch, on_api, ◌>>=◌) (rw (given_source a src) refl)

  -- Compiling for the switch itself gives it what a compiler of its source makes.
  pub compile_switch-Built :
      (info : Attrs) → Ensures Source (compile_switch mn w (x, info)) (λ u t. Built t)
  compile_switch-Built info s t u (a, is_switch) e =
      let done : compile_switch mn w (x, info) s
          ≡ (compiler_of mn w path >>= set_outputs mn w x) s =
        compile_switch_lem info a s is_switch in
      >>=-Ensures Source (compiler_of mn w path) HasCompiler (set_outputs mn w x) (λ u t. Built t)
        compiler_of-HasCompiler set_outputs-Built s t u (a, is_switch) (sym done ∙ e)

  -- Compiling for any switch keeps the source and what is built.
  pub compile_switch-Later :
      (p : String × Attrs) (s : Boot) → p.0 ≢ x → Later mn w x s (compile_switch mn w p s).1
  compile_switch-Later p s apart = compile_switch-Keeps mn w x s p.0 apart p.1 s (here s)
