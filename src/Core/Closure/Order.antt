-- ===== src/Core/Closure/Order.antt =====
-- The chain that the walk of Core/Closure.antt gathers when it meets neither a cycle nor a name that
-- the table does not have: each entry stands after all that it requires, once.
use flower_web_infrastructur.Prelude.{
  ℕ, zero, suc, ◌≡◌, refl, sym, true, false, Option, none, some, List, [], ◌∷◌, ◌++◌, String,
  length, arith, Bool-cases, Option-cases, inl, inr, ◌==◌, string_eq, ==_refl, ◌∙◌, ap, subst,
}
use text.Mathlib.TextEquality.{eq_iff}
use flower_web_infrastructur.Prelude.Dict
use flower_web_infrastructur.Prelude.Dict.{Dict}
use flower_web_infrastructur.Core.Closure.{
  has, Walk, start, each, dfs, topological_closure, meet_unknown, meet_cycle, finish, finish_after,
}
use flower_web_infrastructur.Core.Closure.Total.{has-append}
use flower_web_infrastructur.Core.Closure.Clean.{
  IsClean, never_added, meet_cycle-IsClean, each-IsClean, moved, each-single,
}

module _ {E : Type 0} (name_of : E → String) (requires : E → List String)
    (table : Dict String E) where
  -- Every entry is the one that the table has under its name, is there for the first time, and requires
  -- names that are known before it only.
  abbrev pub IsOrdered : List String → List E → Type 0
  IsOrdered known [] = Unit
  IsOrdered known (e ∷ es) =
      (Dict.get (name_of e) table ≡ some e)
      × (has (name_of e) known ≡ false)
      × ((x : String) → has x (requires e) ≡ true → has x known ≡ true)
      × IsOrdered (name_of e ∷ known) es

  -- The names that are known after a chain.
  abbrev pub names_onto : List String → List E → List String
  names_onto known [] = known
  names_onto known (e ∷ es) = names_onto (name_of e ∷ known) es

  names_onto-append :
      (known : List String) (es : List E) (e : E)
      → names_onto known (es ++ e ∷ []) ≡ name_of e ∷ names_onto known es
  names_onto-append known [] e = refl
  names_onto-append known (d ∷ es) e = names_onto-append (name_of d ∷ known) es e

  append-IsOrdered :
      (known : List String) (es : List E) (e : E)
      → IsOrdered known es
      → Dict.get (name_of e) table ≡ some e
      → has (name_of e) (names_onto known es) ≡ false
      → ((x : String) → has x (requires e) ≡ true → has x (names_onto known es) ≡ true)
      → IsOrdered known (es ++ e ∷ [])
  append-IsOrdered known [] e o g new r = (g, new, r, tt)
  append-IsOrdered known (d ∷ es) e (a, b, c, o) g new r =
      (a, b, c, append-IsOrdered (name_of d ∷ known) es e o g new r)

  record IsGood (w : Walk E) : Type 0 where
    ordered : IsOrdered [] w.chain
    seen_chain : w.seen ≡ names_onto [] w.chain

  record Post (visiting ns : List String) (w w' : Walk E) : Type 0 where
    good : IsGood w'
    grows : (x : String) → has x w.seen ≡ true → has x w'.seen ≡ true
    reached : (x : String) → has x ns ≡ true → has x w'.seen ≡ true
    apart : (x : String) → has x visiting ≡ true → has x w.seen ≡ false → has x w'.seen ≡ false

  each-Post :
      (step : String → Walk E → Option (Walk E)) (visiting : List String)
      → ((n : String) (w w' : Walk E) → step n w ≡ some w' → IsClean w' → IsClean w)
      → ((n : String) (w w' : Walk E)
          → step n w ≡ some w'
          → IsClean w'
          → IsGood w
          → Post visiting (n ∷ []) w w')
      → (ns : List String) (w w' : Walk E) → each step ns w ≡ some w'
      → IsClean w'
      → IsGood w
      → Post visiting ns w w'
  unfolding each
  each-Post step visiting back post [] w w' h c g =
      let e : w ≡ w' = cc in
      subst (Post visiting [] w) e
        (record { good = g; grows = λ x p. p; reached = λ x p. cc; apart = λ x p q. q })
  each-Post step visiting back post (n ∷ ns) w w' h c g = elim (Option-cases (step n w)) [
    | inl stop ↦ absurd (ground (arith, stop, h))
    | inr (v, e) ↦
        let f : each step ns v ≡ some w' = sym (rw (e, each) refl) ∙ h in
        let p = post n w v e (each-IsClean step back ns v w' f c) g in
        let q = each-Post step visiting back post ns v w' f c p.good in
        record {
          good = q.good;
          grows = λ x s. q.grows x (p.grows x s);
          reached = λ x s. elim (Bool-cases (n == x)) [
            | inl same ↦ q.grows x (p.reached x (rw same refl))
            | inr other ↦ q.reached x (sym (rw other refl) ∙ s)
          ];
          apart = λ x s t. q.apart x s (p.apart x s t);
        }
  ]

  -- What one call of the walk comes to.
  data Turn (fuel : ℕ) (visiting : List String) (name : String) (w : Walk E) : Walk E → Type 0 where
    done : has name w.seen ≡ true → Turn fuel visiting name w w
    missing : Turn fuel visiting name w (meet_unknown name w)
    cyclic : Turn fuel visiting name w (meet_cycle visiting name w)
    through :
        (e : E) (v : Walk E)
        → has name w.seen ≡ false
        → Dict.get name table ≡ some e
        → has name visiting ≡ false
        → each (dfs requires table fuel (visiting ++ name ∷ [])) (requires e) w ≡ some v
        → Turn fuel visiting name w (finish name e v)

  entered :
      (fuel : ℕ) (visiting : List String) (name : String) (w w' : Walk E) (e : E)
      (o : Option (Walk E))
      → has name w.seen ≡ false
      → Dict.get name table ≡ some e
      → has name visiting ≡ false
      → each (dfs requires table fuel (visiting ++ name ∷ [])) (requires e) w ≡ o
      → finish_after name e o ≡ some w'
      → Turn fuel visiting name w w'
  entered fuel visiting name w w' e none new found fresh made h = absurd (cc)
  entered fuel visiting name w w' e (some v) new found fresh made h =
      moved (Turn fuel visiting name w) (finish name e v) w' h (through e v new found fresh made)

  dfs-Turn :
      (fuel : ℕ) (visiting : List String) (name : String) (w w' : Walk E)
      → dfs requires table (suc fuel) visiting name w ≡ some w'
      → Turn fuel visiting name w w'
  unfolding dfs
  dfs-Turn fuel visiting name w w' h = elim (Bool-cases (has name w.seen)) [
    | inl old ↦ moved (Turn fuel visiting name w) w w' (sym (rw (old, dfs) refl) ∙ h) (done old)
    | inr new ↦ elim (Option-cases (Dict.get name table)) [
      | inl none_there ↦
          moved (Turn fuel visiting name w) (meet_unknown name w) w'
            (sym (rw (new, none_there, dfs) refl) ∙ h) missing
      | inr (e, found) ↦ elim (Bool-cases (has name visiting)) [
        | inl again ↦
            moved (Turn fuel visiting name w) (meet_cycle visiting name w) w'
              (sym (rw (new, found, again, dfs) refl) ∙ h) cyclic
        | inr fresh ↦
            entered fuel visiting name w w' e
              (each (dfs requires table fuel (visiting ++ name ∷ [])) (requires e) w) new found
              fresh refl (sym (rw (new, found, fresh, dfs) refl) ∙ h)
      ]
    ]
  ]

  turn-IsClean :
      (fuel : ℕ) (visiting : List String) (name : String) (w w' : Walk E)
      → ((v : List String) (n : String) (w w' : Walk E)
          → dfs requires table fuel v n w ≡ some w'
          → IsClean w'
          → IsClean w)
      → Turn fuel visiting name w w'
      → IsClean w'
      → IsClean w
  turn-IsClean fuel visiting name w w' back (done old) c = c
  turn-IsClean fuel visiting name w w' back missing (c, u) = absurd (never_added name w.unknown u)
  turn-IsClean fuel visiting name w w' back cyclic c = absurd (meet_cycle-IsClean visiting name w c)
  turn-IsClean fuel visiting name w w' back (through e v new found fresh made) c =
      each-IsClean (dfs requires table fuel (visiting ++ name ∷ [])) (back (visiting ++ name ∷ []))
        (requires e) w v made c

  dfs-IsClean :
      (fuel : ℕ) (visiting : List String) (name : String) (w w' : Walk E)
      → dfs requires table fuel visiting name w ≡ some w'
      → IsClean w'
      → IsClean w
  dfs-IsClean zero visiting name w w' h c = unfold dfs in absurd (cc)
  dfs-IsClean (suc fuel) visiting name w w' h c =
      turn-IsClean fuel visiting name w w' (dfs-IsClean fuel) (dfs-Turn fuel visiting name w w' h) c

  -- A finished entry keeps the chain in order.
  finish-IsGood :
      (name : String) (e : E) (v : Walk E)
      → name_of e ≡ name
      → Dict.get name table ≡ some e
      → has name v.seen ≡ false
      → ((x : String) → has x (requires e) ≡ true → has x v.seen ≡ true)
      → IsGood v
      → IsGood (finish name e v)
  finish-IsGood name e v same found new needs g = record {
    ordered =
        append-IsOrdered [] v.chain e g.ordered (rw same found)
          (subst (λ k. has (name_of e) k ≡ false) g.seen_chain (rw same new))
          (λ x h. subst (λ k. has x k ≡ true) g.seen_chain (needs x h));
    seen_chain = rw (names_onto-append [] v.chain e) (rw same (ap (λ k. name ∷ k) g.seen_chain));
  }

  turn-Post :
      (fuel : ℕ) (visiting : List String) (name : String) (w w' : Walk E)
      → ((k : String) (e : E) → Dict.get k table ≡ some e → name_of e ≡ k)
      → ((v : List String) (n : String) (w w' : Walk E)
          → dfs requires table fuel v n w ≡ some w'
          → IsClean w'
          → IsGood w
          → Post v (n ∷ []) w w')
      → Turn fuel visiting name w w'
      → IsClean w'
      → IsGood w
      → Post visiting (name ∷ []) w w'
  turn-Post fuel visiting name w w' named post (done old) c g = record {
    good = g;
    grows = λ x p. p;
    reached = λ x p. ground (arith, old, p, eq_iff name x);
    apart = λ x p q. q;
  }
  turn-Post fuel visiting name w w' named post missing (c, u) g =
      absurd (never_added name w.unknown u)
  turn-Post fuel visiting name w w' named post cyclic c g =
      absurd (meet_cycle-IsClean visiting name w c)
  turn-Post fuel visiting name w w' named post (through e v new found fresh made) c g =
      let inner = visiting ++ name ∷ [] in
      let p =
        each-Post (dfs requires table fuel inner) inner (dfs-IsClean fuel inner) (post inner)
          (requires e) w v made c g in
      let same = named name e found in
      record {
        good = finish-IsGood name e v same found (p.apart name (member name) new) p.reached p.good;
        grows = λ x q. ground (arith, p.grows x q);
        reached = λ x q. ground (arith, q);
        apart = λ x q r. ground (arith, fresh, eq_iff name x, q, p.apart x (inside x q) r);
      }
    where
      member : (x : String) → has x (visiting ++ x ∷ []) ≡ true
      member x = ground (arith, has-append x x visiting, ==_refl x)

      inside : (x : String) → has x visiting ≡ true → has x (visiting ++ name ∷ []) ≡ true
      inside x q = ground (arith, has-append x name visiting, q)

  dfs-Post :
      (fuel : ℕ) (visiting : List String) (name : String) (w w' : Walk E)
      → ((k : String) (e : E) → Dict.get k table ≡ some e → name_of e ≡ k)
      → dfs requires table fuel visiting name w ≡ some w'
      → IsClean w'
      → IsGood w
      → Post visiting (name ∷ []) w w'
  dfs-Post zero visiting name w w' named h c g = unfold dfs in absurd (cc)
  dfs-Post (suc fuel) visiting name w w' named h c g =
      turn-Post fuel visiting name w w' named (λ v n u u' k. dfs-Post fuel v n u u' named k)
        (dfs-Turn fuel visiting name w w' h) c g

  -- In a walk that meets no cycle and no unknown name, every entry of the chain stands after all that it
  -- requires, is in the chain once and is the table's, and every name asked for is in the chain.
  pub topological_closure-IsOrdered :
      (names : List String) (w : Walk E)
      → ((k : String) (e : E) → Dict.get k table ≡ some e → name_of e ≡ k)
      → topological_closure requires table names ≡ some w
      → IsClean w
      → IsOrdered [] w.chain
        × ((x : String) → has x names ≡ true → has x (names_onto [] w.chain) ≡ true)
  unfolding topological_closure
  topological_closure-IsOrdered names w named h c =
      let fuel = suc (length table) in
      let p =
        each-Post (dfs requires table fuel []) [] (dfs-IsClean fuel [])
          (λ n u u' k. dfs-Post fuel [] n u u' named k) names start w h c
          (record { ordered = tt; seen_chain = refl }) in
      (p.good.ordered, λ x q. subst (λ k. has x k ≡ true) p.good.seen_chain (p.reached x q))

  -- A clean turn that is not done ends with the entry of its name.
  turn-last :
      (fuel : ℕ) (visiting : List String) (name : String) (w w' : Walk E)
      → Turn fuel visiting name w w'
      → has name w.seen ≡ false
      → IsClean w'
      → (before : List E) × (e : E) × (w'.chain ≡ before ++ e ∷ []) × (Dict.get name table ≡ some e)
  turn-last fuel visiting name w w' (done old) new c = cc
  turn-last fuel visiting name w w' missing new (c, u) = absurd (never_added name w.unknown u)
  turn-last fuel visiting name w w' cyclic new c = absurd (meet_cycle-IsClean visiting name w c)
  turn-last fuel visiting name w w' (through e v _ found fresh made) new c =
      (v.chain, e, refl, found)

  -- The walk from one name that meets no cycle and no unknown name ends its chain with the entry of that
  -- name.
  pub topological_closure-last :
      (name : String) (w : Walk E)
      → topological_closure requires table (name ∷ []) ≡ some w
      → IsClean w
      → (before : List E) × (e : E) × (w.chain ≡ before ++ e ∷ []) × (Dict.get name table ≡ some e)
  unfolding topological_closure each
  topological_closure-last name w h c =
      let e = sym (each-single (dfs requires table (suc (length table)) []) name start) ∙ h in
      turn-last (length table) [] name start w (dfs-Turn (length table) [] name start w e) refl c
