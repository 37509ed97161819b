-- ===== src/Context/Group/Complete/Accepts.antt =====
-- The inner loop of `group_messages` reads exactly the answers to the declared calls.
use coding_agent_neo.Prelude.{
  ◌≤◌, ◌<◌, ◌≡◌, refl, sym, ◌∙◌, inl, inr, true, false, ◌&&◌, some, List, [], ◌∷◌, ◌++◌, map, arith,
  ok, ltb, Result-cases, Bool-cases, Option-cases, length, all, length-append, Text, chars, member,
}
use mathlib.Core.Path.{subst}
use mathlib.Core.List.{append-nil, append_assoc}
use coding_agent_neo.Prelude.Distinct.{
  distinct, subset, distinct-snoc, length-distinct-le, member-append, subset-append, text_eq_comm,
}
use coding_agent_neo.Json.{Fields}
use coding_agent_neo.Context.Message.{has_role, result_id}
use coding_agent_neo.Context.Group.{Entry, Collected, collect, with_result}

distinct-middle :
    (xs ys : List Text) (i : Text) → distinct (xs ++ i ∷ ys) ≡ true → member i xs ≡ false
distinct-middle [] ys i h = refl
distinct-middle (x ∷ xs) ys i h =
    ground (arith, distinct-middle xs ys i, member-append x xs (i ∷ ys), text_eq_comm x i)

subset-middle :
    (xs ys ids : List Text) (i : Text) → subset (xs ++ i ∷ ys) ids ≡ true → member i ids ≡ true
subset-middle xs ys ids i h = ground (arith, subset-append xs (i ∷ ys) ids)

abbrev pub firsts : List Entry → List Fields
firsts es = map (λ e. e.0) es

collect-stops :
    (ids seen : List Text) (rest : List Entry)
    → length ids ≤ length seen
    → collect ids seen rest ≡ ok (record { results = []; seen_ids = seen; rest = rest })
unfolding collect
collect-stops ids seen [] h = refl
collect-stops ids seen (e ∷ rest) h = ground arith

pub collect-accepts :
    (ids seen : List Text) (rs rest : List Entry) (answered : List Text)
    → map result_id (firsts rs) ≡ map some answered
    → all (has_role (chars "tool")) (firsts rs) ≡ true
    → distinct ids ≡ true
    → distinct (seen ++ answered) ≡ true
    → subset (seen ++ answered) ids ≡ true
    → subset ids (seen ++ answered) ≡ true
    → collect ids seen (rs ++ rest)
      ≡ ok (record { results = rs; seen_ids = seen ++ answered; rest = rest })
unfolding collect
collect-accepts ids seen [] rest [] by_id tools d once sub every =
    let full = rw (append-nil seen) at every in
    rw (append-nil seen) (collect-stops ids seen rest (length-distinct-le ids seen d full))
collect-accepts ids seen [] rest (i ∷ is) by_id tools d once sub every = absurd (ground arith)
collect-accepts ids seen (r ∷ rs) rest [] by_id tools d once sub every = absurd (ground arith)
collect-accepts ids seen (r ∷ rs) rest (i ∷ is) by_id tools d once sub every =
    let seen' : (seen ++ i ∷ []) ++ is ≡ seen ++ i ∷ is = append_assoc seen (i ∷ []) is in
    let ih =
      collect-accepts ids (seen ++ i ∷ []) rs rest is (ground arith) (ground arith) d
        (rw seen' once) (rw seen' sub) (rw seen' every) in
    let fresh = distinct-middle seen is i once in
    let known = subset-middle seen is ids i sub in
    let short : length seen < length ids =
      omega (
        arith,
        length-distinct-le (seen ++ i ∷ is) ids once sub,
        length-append {0} seen (i ∷ is),
      ) in
    ground (arith, ih, seen')

-- What the loop has read answers distinct declared calls.
pub record Reads (ids seen : List Text) (c : Collected) : Type 0 where
  pub answered : List Text
  pub by_id : map result_id (firsts c.results) ≡ map some answered
  pub by_tools : all (has_role (chars "tool")) (firsts c.results) ≡ true
  pub seen_all : c.seen_ids ≡ seen ++ answered
  pub once : distinct (seen ++ answered) ≡ true
  pub declared : subset (seen ++ answered) ids ≡ true

Reads-stop :
    (ids seen : List Text) (es : List Entry)
    → distinct seen ≡ true
    → subset seen ids ≡ true
    → Reads ids seen (record { results = []; seen_ids = seen; rest = es })
Reads-stop ids seen es d sub = record {
  answered = [];
  by_id = refl;
  by_tools = refl;
  seen_all = sym (append-nil seen);
  once = rw (append-nil seen) d;
  declared = rw (append-nil seen) sub;
}

Reads-more :
    (ids seen : List Text) (e : Entry) (i : Text) (c : Collected)
    → result_id e.0 ≡ some i
    → has_role (chars "tool") e.0 ≡ true
    → Reads ids (seen ++ i ∷ []) c
    → Reads ids seen (with_result e c)
Reads-more ids seen e i c found tool r = record {
  answered = i ∷ r.answered;
  by_id = ground (arith, r.by_id);
  by_tools = ground (arith, r.by_tools);
  seen_all = r.seen_all ∙ append_assoc seen (i ∷ []) r.answered;
  once = rw (append_assoc seen (i ∷ []) r.answered) at r.once;
  declared = rw (append_assoc seen (i ∷ []) r.answered) at r.declared;
}

pub collect-Reads :
    (ids seen : List Text) (es : List Entry) (c : Collected)
    → distinct seen ≡ true
    → subset seen ids ≡ true
    → collect ids seen es ≡ ok c
    → Reads ids seen c
unfolding collect
collect-Reads ids seen [] c d sub h =
    subst (Reads ids seen) (ground arith) (Reads-stop ids seen [] d sub)
collect-Reads ids seen (e ∷ es) c d sub h =
    elim (Bool-cases (ltb (length seen) (length ids) && has_role (chars "tool") e.0)) [
      | inr stop ↦ subst (Reads ids seen) (ground arith) (Reads-stop ids seen (e ∷ es) d sub)
      | inl go ↦ elim (Option-cases (result_id e.0)) [
        | inl missing ↦ absurd (ground arith)
        | inr (i, found) ↦ elim (Result-cases (collect ids (seen ++ i ∷ []) es)) [
          | inr (x, failed) ↦ absurd (ground arith)
          | inl (c', more) ↦
              let known : member i ids ≡ true = ground arith in
              let fresh : member i seen ≡ false = ground arith in
              let once = distinct-snoc seen i d fresh in
              let declared : subset (seen ++ i ∷ []) ids ≡ true =
                ground (arith, subset-append seen (i ∷ []) ids) in
              let ih = collect-Reads ids (seen ++ i ∷ []) es c' once declared more in
              subst (Reads ids seen) (ground arith)
                (Reads-more ids seen e i c' found (ground arith) ih)
        ]
      ]
    ]
