-- ===== src/Logging/Fields.antt =====
-- The fields of a line of app/core/logging.py, by where they come from.
use symmetrical_disco.Base.{
  String, Bool, true, false, ◌||◌, Option, none, some, [], ◌∷◌, ◌≡◌, refl, sym, ap, ◌∙◌, is_some,
  str_eq, eq_iff, Bool-cases, Option-cases, inl, inr,
}
use symmetrical_disco.Models.{Json, text}
use symmetrical_disco.Logging.{
  Dict, value_at, set_at, add_context, LogRecord, is_skipped, copy_fields, or_zero, is_zero,
  with_trace, with_exception, base_fields, format_record, emit,
}

-- `a`, or else `b`.
abbrev pub or_else : Option Json → Option Json → Option Json
or_else none b = b
or_else (some v) b = some v

or_else_assoc : (a b c : Option Json) → or_else (or_else a b) c ≡ or_else a (or_else b c)
or_else_assoc none b c = refl
or_else_assoc (some v) b c = refl

str_eq_refl : (k : String) → str_eq k k ≡ true
str_eq_refl k = (eq_iff k k).1 refl

str_eq_apart : (a b : String) → str_eq a b ≡ false → str_eq b a ≡ false
str_eq_apart a b h = elim (Bool-cases (str_eq b a)) [
  | inl same ↦ let back : str_eq a b ≡ true = (eq_iff a b).1 (sym ((eq_iff b a).0 same)) in cc
  | inr apart ↦ apart
]

value_at-set_at : (k : String) (v : Json) (d : Dict) → value_at k (set_at k v d) ≡ some v
unfolding value_at set_at
value_at-set_at k v [] = rw (str_eq_refl k) refl
value_at-set_at k v ((x, y) ∷ d) = elim (Bool-cases (str_eq x k)) [
  | inl same ↦ rw (same, same) refl
  | inr other ↦ rw (other, other) (value_at-set_at k v d)
]

value_at-set_at_other :
    (k key : String) (v : Json) (d : Dict)
    → str_eq k key ≡ false
    → value_at key (set_at k v d) ≡ value_at key d
unfolding value_at set_at
value_at-set_at_other k key v [] h = rw h refl
value_at-set_at_other k key v ((x, y) ∷ d) h = elim (Bool-cases (str_eq x k)) [
  | inl same ↦
      let apart : str_eq x key ≡ false = ap (λ z. str_eq z key) ((eq_iff x k).0 same) ∙ h in
      rw (same, apart) refl
  | inr other ↦ elim (Bool-cases (str_eq x key)) [
    | inl here ↦ rw (other, here) refl
    | inr there ↦ rw (other, there) (value_at-set_at_other k key v d h)
  ]
]

-- A field that the record has stays, and one that it has not comes from the context.
value_at-add_context :
    (key : String) (context attributes : Dict)
    → value_at key (add_context context attributes)
      ≡ or_else (value_at key attributes) (value_at key context)
unfolding add_context value_at
value_at-add_context key [] attributes = elim (Option-cases (value_at key attributes)) [
  | inl missing ↦ rw missing refl
  | inr (v, there) ↦ rw there refl
]
value_at-add_context key ((k, v) ∷ context) attributes =
    elim (Option-cases (value_at k attributes)) [
      | inl missing ↦ elim (Bool-cases (str_eq k key)) [
        | inl same ↦
            let at_key : value_at key attributes ≡ none =
              ap (λ z. value_at z attributes) (sym ((eq_iff k key).0 same)) ∙ missing in
            let put : value_at key (set_at k v attributes) ≡ some v =
              ap (λ z. value_at z (set_at k v attributes)) (sym ((eq_iff k key).0 same))
              ∙ value_at-set_at k v attributes in
            rw (missing, same, at_key)
              (value_at-add_context key context (set_at k v attributes)
                ∙ ap (λ o. or_else o (value_at key context)) put)
        | inr other ↦
            rw (missing, other)
              (value_at-add_context key context (set_at k v attributes)
                ∙ ap (λ o. or_else o (value_at key context))
                    (value_at-set_at_other k key v attributes other))
      ]
      | inr (w, there) ↦ elim (Bool-cases (str_eq k key)) [
        | inl same ↦
            let at_key : value_at key attributes ≡ some w =
              ap (λ z. value_at z attributes) (sym ((eq_iff k key).0 same)) ∙ there in
            rw (there, same)
              (value_at-add_context key context attributes
                ∙ ap (λ o. or_else o (value_at key context)) at_key
                ∙ sym (ap (λ o. or_else o (some v)) at_key))
        | inr other ↦ rw (there, other) (value_at-add_context key context attributes)
      ]
    ]

-- Each key stands once.
abbrev pub IsDict : Dict → Type 0
IsDict [] = Unit
IsDict ((k, v) ∷ d) = (value_at k d ≡ none) × IsDict d

set_at-IsDict : (k : String) (v : Json) (d : Dict) → IsDict d → IsDict (set_at k v d)
unfolding set_at value_at
set_at-IsDict k v [] h = (refl, tt)
set_at-IsDict k v ((x, y) ∷ d) h = elim (Bool-cases (str_eq x k)) [
  | inl same ↦ rw same h
  | inr other ↦
      rw other
        (value_at-set_at_other k x v d (str_eq_apart x k other) ∙ h.0, set_at-IsDict k v d h.1)
]

add_context-IsDict :
    (context attributes : Dict) → IsDict attributes → IsDict (add_context context attributes)
unfolding add_context
add_context-IsDict [] attributes h = h
add_context-IsDict ((k, v) ∷ context) attributes h =
    elim (Bool-cases (is_some (value_at k attributes))) [
      | inl there ↦ rw there (add_context-IsDict context attributes h)
      | inr missing ↦
          rw missing
            (add_context-IsDict context (set_at k v attributes) (set_at-IsDict k v attributes h))
    ]

-- The fields that are copied are those of the record, before those that were there.
value_at-copy_fields :
    (key : String) (out d : Dict)
    → is_skipped key ≡ false
    → IsDict d
    → value_at key (copy_fields out d) ≡ or_else (value_at key d) (value_at key out)
unfolding copy_fields value_at
value_at-copy_fields key out [] plain h = refl
value_at-copy_fields key out ((k, v) ∷ d) plain h = elim (Bool-cases (str_eq k key)) [
  | inl same ↦
      let eq : k ≡ key = (eq_iff k key).0 same in
      let kept : is_skipped k ≡ false = ap is_skipped eq ∙ plain in
      let later : value_at key d ≡ none = ap (λ z. value_at z d) (sym eq) ∙ h.0 in
      let put : value_at key (set_at k v out) ≡ some v =
        ap (λ z. value_at z (set_at k v out)) (sym eq) ∙ value_at-set_at k v out in
      rw (kept, same)
        (value_at-copy_fields key (set_at k v out) d plain h.1
          ∙ ap (λ o. or_else o (value_at key (set_at k v out))) later
          ∙ put)
  | inr other ↦ elim (Bool-cases (is_skipped k)) [
    | inl skipped ↦ rw (skipped, other) (value_at-copy_fields key out d plain h.1)
    | inr kept ↦
        rw (kept, other)
          (value_at-copy_fields key (set_at k v out) d plain h.1
            ∙ ap (λ o. or_else (value_at key d) o) (value_at-set_at_other k key v out other))
  ]
]

-- A key that the formatter does not write by itself, but for those of `base_fields`.
abbrev pub is_own : String → Bool
is_own key = str_eq "trace_id" key || (str_eq "span_id" key || str_eq "exception" key)

or_false : (a b : Bool) → a || b ≡ false → (a ≡ false) × (b ≡ false)
or_false false false h = (refl, refl)
or_false false true h = cc
or_false true b h = cc

value_at-with_trace :
    (key : String) (attributes out : Dict)
    → str_eq "trace_id" key ≡ false
    → str_eq "span_id" key ≡ false
    → value_at key (with_trace attributes out) ≡ value_at key out
unfolding with_trace
value_at-with_trace key attributes out t s =
    elim (Bool-cases (is_zero (or_zero (value_at "otelTraceID" attributes)))) [
      | inl none_there ↦ rw none_there refl
      | inr traced ↦
          rw traced (
            value_at-set_at_other "span_id" key _ _ s
            ∙ value_at-set_at_other "trace_id" key _ out t)
    ]

value_at-with_exception :
    (key : String) (o : Option String) (out : Dict)
    → str_eq "exception" key ≡ false
    → value_at key (with_exception o out) ≡ value_at key out
unfolding with_exception
value_at-with_exception key none out e = refl
value_at-with_exception key (some t) out e = value_at-set_at_other "exception" key (text t) out e

-- A field of a line, under any key but the reserved ones, OpenTelemetry's, and the three of traces and
-- exceptions: it is the record's own field if it has one, else the field of the bound context, else
-- one of the four that every line has.
pub value_at-emit :
    (key : String) (context : Dict) (r : LogRecord)
    → is_skipped key ≡ false
    → is_own key ≡ false
    → IsDict r.attributes
    → value_at key (emit context r)
      ≡ or_else
          (value_at key r.attributes)
          (or_else (value_at key context) (value_at key (base_fields r)))
unfolding emit format_record
value_at-emit key context r plain own h =
    let attributes = add_context context r.attributes in
    let (trace, more) = or_false (str_eq "trace_id" key) _ own in
    let (span, exception) = or_false (str_eq "span_id" key) _ more in
    value_at-with_exception key r.traceback _ exception
    ∙ value_at-with_trace key attributes _ trace span
    ∙ value_at-copy_fields key (base_fields r) attributes plain
        (add_context-IsDict context r.attributes h)
    ∙ ap (λ o. or_else o (value_at key (base_fields r)))
        (value_at-add_context key context r.attributes)
    ∙ or_else_assoc (value_at key r.attributes) (value_at key context)
        (value_at key (base_fields r))
