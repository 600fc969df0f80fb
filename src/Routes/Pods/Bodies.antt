-- ===== src/Routes/Pods/Bodies.antt =====
-- gateway/src/routes/pods.ts: what a body asks for, in the shapes in which it comes.
use nidora_ai_inference.Base.{
  ◌≡◌, refl, ap, ◌∙◌, Bool, true, not, ◌||◌, any, truthy, false, if◌then◌else◌, Option, none, some,
  List, [], ◌∷◌, ◌++◌, arith, Str, text, str_eq, str_eq_refl,
}
use mathlib.Core.Option
use nidora_ai_inference.Domain.Errors.{api_error}
use nidora_ai_inference.Domain.Sizing.{trim}
use nidora_ai_inference.Domain.Models.{to_lower_case}
use nidora_ai_inference.Routes.State.{Gateway, rejected}
use nidora_ai_inference.Routes.Pods.{
  Wanted, unset, shown, nothing, form_body, json_body, last_value, parse_body, receive_drain,
  parse_form, parse_json, received, shown_or_unset, set_drain, post_drain, delete_drain,
  wants_draining,
}

last_value-append :
    (key : Str) (ps : List (Str × Str)) (v : Str) → last_value key (ps ++ (key, v) ∷ []) ≡ some v
unfolding last_value
last_value-append key [] v = ground (arith, str_eq_refl key)
last_value-append key ((k, w) ∷ ps) v = rw (last_value-append key ps v) refl

-- The words that mean no.
abbrev pub no_words : List Str
no_words = [] ∷ text "false" ∷ text "0" ∷ text "no" ∷ []

-- The test for the empty string comes last in the source.
words :
    (w : Str)
    → not (
        str_eq w (text "false")
        || (str_eq w (text "0") || (str_eq w (text "no") || not (truthy w))))
      ≡ not (any (str_eq w) no_words)
unfolding str_eq
words [] = ground arith
words (c ∷ cs) = ground arith

wants-no_words :
    (v : Str) → wants_draining (shown v) ≡ not (any (str_eq (to_lower_case (trim v))) no_words)
unfolding wants_draining
wants-no_words v = words (to_lower_case (trim v))

module _ (pairs : Str → Option (List (Str × Str))) (json : Str → Option Wanted) where
  parse_json-blank : (s : Str) → trim s ≡ [] → parse_json pairs json s ≡ some unset
  unfolding parse_json str_eq
  parse_json-blank s e = ap (λ t. if str_eq t [] then some unset else json t) e

  parse_json-malformed :
      (s : Str) → str_eq (trim s) [] ≡ false → json (trim s) ≡ none → parse_json pairs json s ≡ none
  unfolding parse_json
  parse_json-malformed s n e = ap (λ b. if b then some unset else json (trim s)) n ∙ e

  parse_form-last :
      (s v : Str) (ps : List (Str × Str))
      → pairs s ≡ some (ps ++ (text "draining", v) ∷ [])
      → parse_form pairs json s ≡ some (shown v)
  unfolding parse_form
  parse_form-last s v ps e =
      ap (Option.map (λ qs. shown_or_unset (last_value (text "draining") qs))) e
      ∙ ap (λ o. some (shown_or_unset o)) (last_value-append (text "draining") ps v)

  -- A JSON body of white space drains like a POST without a body; one that is not blank and does not
  -- parse is answered with 400 and changes nothing.
  pub receive_drain-json :
      (id s : Str) (g : Gateway)
      → (trim s ≡ []
          → receive_drain pairs json id (json_body s) g ≡ receive_drain pairs json id nothing g)
        × (str_eq (trim s) [] ≡ false
            → json (trim s) ≡ none
            → receive_drain pairs json id (json_body s) g
              ≡ (g, rejected 400 (api_error 400 none none)))
  unfolding receive_drain parse_body
  receive_drain-json id s g = (
    (λ e. ap (λ o. received id o g) (parse_json-blank s e)),
    (λ n e. ap (λ o. received id o g) (parse_json-malformed s n e)),
  )

  -- A form body whose last field is `draining`, whatever stands before it: it resumes the pod like the
  -- DELETE if the value, without white space at its ends and in any case, is empty or one of "false",
  -- "0" and "no"; else it drains the pod like a POST without a body.
  pub receive_drain-form :
      (id s v : Str) (ps : List (Str × Str)) (g : Gateway)
      → pairs s ≡ some (ps ++ (text "draining", v) ∷ [])
      → receive_drain pairs json id (form_body s) g ≡ (
          if any (str_eq (to_lower_case (trim v))) no_words
          then delete_drain id g
          else receive_drain pairs json id nothing g)
  unfolding receive_drain parse_body post_drain delete_drain wants_draining
  receive_drain-form id s v ps g e =
      ap (λ o. received id o g) (parse_form-last s v ps e)
      ∙ ap (λ b. set_drain id b g) (wants-no_words v)
      ∙ chosen (any (str_eq (to_lower_case (trim v))) no_words)
    where
      chosen :
          (b : Bool)
          → set_drain id (not b) g ≡ (if b then set_drain id false g else set_drain id true g)
      chosen true = refl
      chosen false = refl
