-- ===== src/Node/NativeStream/Reconcile.antt =====
-- What a push of the missing parts of the tool calls makes of them, agents/node/src/native_stream.rs.
use text.Mathlib.TextLemmas.{append-nil}
use mundusx.Prelude.{
  ℕ, ◌+◌, ◌≤◌, ◌<◌, ◌≡◌, refl, sym, ap, ◌∙◌, subst, String, push_str, List, [], ◌∷◌, true, false,
  not, ◌||◌, Result, ok, length, ltb, is_empty, arith, Bool-cases, inl, inr, bind-ok, ok-injective,
}
use mundusx.Node.NativeStream.{
  CallView, Call, Calls, get_call, set_call, call_or_empty, append, append_call, push_calls,
  field_text, suffix, text_or_null, call_delta, push_delta, reconcile,
}
use mundusx.Node.NativeStream.Calls.{
  get-set, get-set_other, reaches, reaches-set, suffix-ok, suffix_self,
}

-- The call has the three texts of the final message's call.
abbrev pub Full : Call → CallView → Type 0
Full call full =
    (call.id ≡ field_text full.id)
    × (call.name ≡ field_text full.name)
    × (call.arguments ≡ field_text full.arguments)

-- The calls from this index on are those of the final message.
abbrev pub Done : Calls → ℕ → List CallView → Type 0
Done calls index [] = Unit
Done calls index (full ∷ more) =
    Full (call_or_empty (get_call calls index)) full × Done calls (index + 1) more

pub Done-reconcile :
    (calls : Calls) (index : ℕ) (finals : List CallView)
    → Done calls index finals
    → reconcile calls index finals ≡ ok []
unfolding reconcile
Done-reconcile calls index [] d = refl
Done-reconcile calls index (full ∷ more) d =
    rw
      (
        suffix_self (field_text full.id) _ d.0.0,
        suffix_self (field_text full.name) _ d.0.1,
        suffix_self (field_text full.arguments) _ d.0.2,
        Done-reconcile calls (index + 1) more d.1,
      )
      refl

append-text_or_null :
    (target part : String) → append target (text_or_null part) ≡ ok (push_str target part)
append-text_or_null target String.[] = ap ok (sym (append-nil target))
append-text_or_null target (String.◌∷◌ c part) = refl

abbrev joined_call : Call → String → String → String → Call
joined_call call id name arguments = record {
  id = push_str call.id id;
  name = push_str call.name name;
  arguments = push_str call.arguments arguments;
}

append_call-call_delta :
    (call : Call) (index : ℕ) (id name arguments : String)
    → append_call call (call_delta index id name arguments)
      ≡ (ok tt, joined_call call id name arguments)
append_call-call_delta call index id name arguments =
    rw (append-text_or_null call.id id, append-text_or_null call.name name) refl

push_calls-delta :
    (index : ℕ) (id name arguments : String) (rest : List CallView) (calls : Calls)
    → index < 128
    → push_calls (call_delta index id name arguments ∷ rest) calls
      ≡ push_calls rest (
          set_call index
            (joined_call (call_or_empty (get_call calls index)) id name arguments)
            calls)
unfolding push_calls
push_calls-delta index id name arguments rest calls lt =
    let small : ltb index 128 ≡ true = ground arith in
    rw
      (small, append_call-call_delta (call_or_empty (get_call calls index)) index id name arguments)
      refl

-- What a push of the calls `deltas` makes of `before`: it succeeds, leaves the calls below the
-- index alone, has those from it on as in the final message, and keeps under the bounds of `before`.
pub record Reconciled (before : Calls) (index : ℕ) (finals : List CallView)
    (after : Result String Unit × Calls) : Type 0 where
  pub fine : after.0 ≡ ok tt
  pub below : (k : ℕ) → k < index → get_call after.1 k ≡ get_call before k
  pub done : Done after.1 index finals
  pub bounded :
      (bound : ℕ)
      → index + length finals ≤ bound
      → reaches bound before ≡ false
      → reaches bound after.1 ≡ false

-- One call further up: `mid` is `before`, or `before` with the call at the index completed.
Reconciled-step :
    (before mid : Calls) (index : ℕ) (full : CallView) (more : List CallView)
    (after : Result String Unit × Calls)
    → ((k : ℕ) → k < index → get_call mid k ≡ get_call before k)
    → ((bound : ℕ) → index < bound → reaches bound before ≡ false → reaches bound mid ≡ false)
    → Full (call_or_empty (get_call mid index)) full
    → Reconciled mid (index + 1) more after
    → Reconciled before index (full ∷ more) after
Reconciled-step before mid index full more after same kept full_now r = record {
  fine = r.fine;
  below = λ k lt. r.below k (omega (arith, lt)) ∙ same k lt;
  done = (
    subst (λ c. Full (call_or_empty c) full) (sym (r.below index (omega arith))) full_now,
    r.done,
  );
  bounded = λ bound le b. r.bounded bound (omega (arith, le)) (kept bound (omega (arith, le)) b);
}

-- What a successful round of the loop found.
record Found (calls : Calls) (index : ℕ) (full : CallView) (more deltas : List CallView)
    : Type 0 where
  id : String
  name : String
  arguments : String
  rest : List CallView
  same_id : field_text full.id ≡ push_str (call_or_empty (get_call calls index)).id id
  same_name : field_text full.name ≡ push_str (call_or_empty (get_call calls index)).name name
  same_arguments :
      field_text full.arguments
      ≡ push_str (call_or_empty (get_call calls index)).arguments arguments
  rest_ok : reconcile calls (index + 1) more ≡ ok rest
  made : push_delta index id name arguments rest ≡ deltas

reconcile-Found :
    (calls : Calls) (index : ℕ) (full : CallView) (more deltas : List CallView)
    → reconcile calls index (full ∷ more) ≡ ok deltas
    → Found calls index full more deltas
unfolding reconcile
reconcile-Found calls index full more deltas e =
    let previous = call_or_empty (get_call calls index) in
    let (id, id_ok, e1) = bind-ok (suffix (field_text full.id) previous.id) _ deltas e in
    let (name, name_ok, e2) = bind-ok (suffix (field_text full.name) previous.name) _ deltas e1 in
    let (arguments, arguments_ok, e3) =
      bind-ok (suffix (field_text full.arguments) previous.arguments) _ deltas e2 in
    let (rest, rest_ok, e4) = bind-ok (reconcile calls (index + 1) more) _ deltas e3 in
    record {
      id = id;
      name = name;
      arguments = arguments;
      rest = rest;
      same_id = suffix-ok (field_text full.id) previous.id id id_ok;
      same_name = suffix-ok (field_text full.name) previous.name name name_ok;
      same_arguments =
          suffix-ok (field_text full.arguments) previous.arguments arguments arguments_ok;
      rest_ok = rest_ok;
      made = ok-injective (push_delta index id name arguments rest) deltas e4;
    }

none_added : (target part : String) → is_empty part ≡ true → push_str target part ≡ target
none_added target String.[] e = append-nil target
none_added target (String.◌∷◌ c part) e = absurd (ground (arith, e))

nothing-Reconciled :
    (before : Calls) (index : ℕ) → Reconciled before index [] (push_calls [] before)
unfolding push_calls
nothing-Reconciled before index = record {
  fine = refl;
  below = λ k lt. refl;
  done = tt;
  bounded = λ bound le b. b;
}

-- A push of a round's delta, if it makes one, completes the call.
push_delta-Reconciled :
    (before : Calls) (index : ℕ) (full : CallView) (more : List CallView)
    (id name arguments : String) (rest : List CallView)
    → Full (joined_call (call_or_empty (get_call before index)) id name arguments) full
    → index < 128
    → ((mid : Calls)
        → ((k : ℕ) → index + 1 ≤ k → get_call mid k ≡ get_call before k)
        → Reconciled mid (index + 1) more (push_calls rest mid))
    → Reconciled before index
        (full ∷ more)
        (push_calls (push_delta index id name arguments rest) before)
push_delta-Reconciled before index full more id name arguments rest f lt go =
    elim (Bool-cases (not (is_empty id) || not (is_empty name) || not (is_empty arguments))) [
      | inl some_text ↦
          let mid =
            set_call index (joined_call (call_or_empty (get_call before index)) id name arguments)
              before in
          rw (some_text, push_calls-delta index id name arguments rest before lt)
            (Reconciled-step before mid index full more _
              (λ k below. get-set_other index k _ before (ground (arith, below)))
              (λ bound b r. reaches-set bound index _ before b r)
              (subst (λ c. Full (call_or_empty c) full) (sym (get-set index _ before)) f)
              (go mid (λ k above. get-set_other index k _ before (ground (arith, above)))))
      | inr no_text ↦ rw no_text (
          Reconciled-step before before index full more _ (λ k below. refl) (λ bound b r. r)
            (
              sym (none_added _ id (ground (arith, no_text))) ∙ f.0,
              sym (none_added _ name (ground (arith, no_text))) ∙ f.1,
              sym (none_added _ arguments (ground (arith, no_text))) ∙ f.2,
            )
            (go before (λ k above. refl)))
    ]

pub reconcile-Reconciled :
    (calls before : Calls) (index : ℕ) (finals deltas : List CallView)
    → reconcile calls index finals ≡ ok deltas
    → ((k : ℕ) → index ≤ k → get_call before k ≡ get_call calls k)
    → index + length finals ≤ 128
    → Reconciled before index finals (push_calls deltas before)
unfolding reconcile
reconcile-Reconciled calls before index [] deltas e agree small =
    subst (λ d. Reconciled before index [] (push_calls d before)) (ok-injective [] deltas e)
      (nothing-Reconciled before index)
reconcile-Reconciled calls before index (full ∷ more) deltas e agree small =
    let found = reconcile-Found calls index full more deltas e in
    let same = agree index (omega arith) in
    subst (λ d. Reconciled before index (full ∷ more) (push_calls d before)) found.made
      (push_delta-Reconciled before index full more found.id found.name found.arguments found.rest
        (subst (λ c. Full (joined_call (call_or_empty c) found.id found.name found.arguments) full)
          (sym same) (sym found.same_id, sym found.same_name, sym found.same_arguments))
        (omega (arith, small))
        (λ mid kept.
          reconcile-Reconciled calls mid (index + 1) more found.rest found.rest_ok
            (λ k le. kept k le ∙ agree k (omega (arith, le))) (omega (arith, small))))
