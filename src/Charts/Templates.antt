-- ===== src/Charts/Templates.antt =====
-- As much of text/template as the templates of charts/internal/calico/templates/node use: what a template
-- reads of the values, and when. The YAML between is left out, but for texts that a value chooses or
-- that are the names of what a value is put in.
pub mod Node
pub mod Filled
use mathlib.Core.Quot
use native.Mathlib.Nat.{ℕ_set}
use package.text.Mathlib.TextEquality.{IsScalar-prop}
use gardener_extension_netwo.Prelude.{
  ◌≡◌, refl, ap, String, Bool, true, false, Option, none, some, List, [], ◌∷◌, ◌++◌, ◌<>◌, ◌==◌,
  if◌then◌else◌, not,
}
use gardener_extension_netwo.Prelude.Result.{Result, ok, err, errorf, ◌>>=◌}
use gardener_extension_netwo.Json.{Value, null, boolean, text, object, Members}
use gardener_extension_netwo.Json.Maps.{AgreeAt, Agree, shape_at, GoMap}

-- The function `upper` of the library sprig, and `semverCompare ">= 1.16"` on the version of the shoot.
pub record Functions : Type 0 where
  pub upper : String → String
  pub is_recent : Bool

-- `{{ .Values.a.b }}` and `{{ index .Values.a "b" }}` both print the value at a path; `eq` compares it with
-- a text.
mutual
  pub data Action : Type 0 where
    print print_upper : List String → Action
    literal : String → Action
    if_true : List String → Actions → Actions → Action
    if_equal : List String → String → Actions → Action
    if_recent : Actions → Actions → Action

  pub data Actions : Type 0 where
    stop : Actions
    ◌⨾◌ : Action → Actions → Actions

infixr 5 ◌⨾◌
-- The field `k` of what a path has led to, and then the rest of the path: a key that a map does not have is
-- nil, and what is no map has no fields.
abbrev pub and_field : Option Value → String → Result Value → Result Value
and_field none k rest = err (errorf ("nil pointer evaluating interface {}." <> k))
and_field (some null) k rest = err (errorf ("nil pointer evaluating interface {}." <> k))
and_field (some (boolean b)) k rest = err (errorf ("can't evaluate field " <> k))
and_field (some (text s)) k rest = err (errorf ("can't evaluate field " <> k))
and_field (some (object m)) k rest = rest

abbrev pub or_nil : Option Value → Value
or_nil none = null
or_nil (some v) = v

abbrev pub evaluate_from : List String → List String → Value → Result Value
evaluate_from before [] v = ok (or_nil (shape_at before v))
evaluate_from before (k ∷ ks) v =
    and_field (shape_at before v) k (evaluate_from (before ++ (k ∷ [])) ks v)

abbrev pub evaluate : List String → Value → Result Value
evaluate path v = evaluate_from [] path v

-- A nil prints as nothing. No map is printed: the format of one is left out.
abbrev pub printed : Value → Result String
printed null = ok ""
printed (boolean b) = ok (if b then "true" else "false")
printed (text s) = ok s
printed (object m) = err (errorf "a map is printed")

abbrev pub upper_printed : Functions → Value → Result String
upper_printed F (text s) = ok (F.upper s)
upper_printed F _ = err (errorf "wrong type of value; expected string")

abbrev pub equals : String → Value → Result Bool
equals s (text t) = ok (t == s)
equals s _ = err (errorf "incompatible types for comparison")

-- What is true to an `if`. Of a map, `evaluate` keeps no entries: that it has some is seen from its keys,
-- which no `if` of these templates asks for.
abbrev pub is_true : Value → Result Bool
is_true null = ok false
is_true (boolean b) = ok b
is_true (text s) = ok (not (s == ""))
is_true (object m) = err (errorf "a map is tested")

module _ (F : Functions) where
  abbrev mutual
    pub act : Action → Value → Result (List String)
    act (print path) v = do w ← evaluate path v; s ← printed w; ok (s ∷ [])
    act (print_upper path) v = do w ← evaluate path v; s ← upper_printed F w; ok (s ∷ [])
    act (literal s) v = ok (s ∷ [])
    act (if_true path body other) v =
        let chose = execute body v in
        let otherwise = execute other v in
        evaluate path v >>= λ w. is_true w >>= λ b. if b then chose else otherwise
    act (if_equal path s body) v =
        let chose = execute body v in
        evaluate path v >>= λ w. equals s w >>= λ b. if b then chose else ok []
    act (if_recent body other) v =
        let chose = execute body v in
        let otherwise = execute other v in if F.is_recent then chose else otherwise

    -- The texts of an execution, in order.
    pub execute : Actions → Value → Result (List String)
    execute stop v = ok []
    execute (a ⨾ rest) v =
        let others = execute rest v in act a v >>= λ here. others >>= λ there. ok (here ++ there)

-- What an execution depends on is the map, not the order of its entries.
evaluate_from-AgreeAt :
    (before path : List String) (v w : Value)
    → AgreeAt v w
    → evaluate_from before path v ≡ evaluate_from before path w
evaluate_from-AgreeAt before [] v w h = ap (λ o. ok (or_nil o)) (h before)
evaluate_from-AgreeAt before (k ∷ ks) v w h =
    λ i. and_field (h before i) k (evaluate_from-AgreeAt (before ++ (k ∷ [])) ks v w h i)

module _ (F : Functions) where
  mutual
    pub act-AgreeAt : (a : Action) (v w : Value) → AgreeAt v w → act F a v ≡ act F a w
    act-AgreeAt (print path) v w h = rw (act, evaluate_from-AgreeAt [] path v w h) refl
    act-AgreeAt (print_upper path) v w h = rw (act, evaluate_from-AgreeAt [] path v w h) refl
    act-AgreeAt (literal s) v w h = refl
    act-AgreeAt (if_true path body other) v w h =
        rw
          (
            act,
            evaluate_from-AgreeAt [] path v w h,
            execute-AgreeAt body v w h,
            execute-AgreeAt other v w h,
          )
          refl
    act-AgreeAt (if_equal path s body) v w h =
        rw (act, evaluate_from-AgreeAt [] path v w h, execute-AgreeAt body v w h) refl
    act-AgreeAt (if_recent body other) v w h =
        rw (act, execute-AgreeAt body v w h, execute-AgreeAt other v w h) refl

    pub execute-AgreeAt :
        (template : Actions) (v w : Value)
        → AgreeAt v w
        → execute F template v ≡ execute F template w
    execute-AgreeAt stop v w h = refl
    execute-AgreeAt (a ⨾ rest) v w h =
        rw (execute, act-AgreeAt a v w h, execute-AgreeAt rest v w h) refl

pub Result-set : IsSet (Result (List String))
Result-set = hlevel (IsScalar-prop, ℕ_set)

-- A template, executed on the values that the renderer is given.
abbrev pub fill : Functions → Actions → GoMap → Result (List String)
fill F template =
    Quot.lift Result-set (λ m. execute F template (object m))
      (λ m n h. execute-AgreeAt F template (object m) (object n) h)
