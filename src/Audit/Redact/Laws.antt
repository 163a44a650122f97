-- ===== src/Audit/Redact/Laws.antt =====
-- Redact: the shortcut of redactString, and what the handled record holds.
use gobot.Prelude.{
  ◌≡◌, refl, ap, ◌∙◌, sym, subst, inl, inr, Bool, true, false, List, [], ◌∷◌, String, str_eq,
  eq_iff, arith, Bool-cases,
}
use gobot.Audit.Redact.{
  Attr, string_attr, group_attr, other_attr, Attrs, no_attrs, cons, Record, trigger_prefixes,
  any_contained, needs_redaction, replace_all, redact_string, redact_text, redact_attr,
  redact_attrs, handle,
}

-- A pattern begins with its literal prefix, so that it replaces nothing in a text without it.
abbrev pub Anchored : (String → String → Bool) → List (String → String) → List String → Type 0
Anchored contains [] ps = Unit
Anchored contains (f ∷ fs) [] = ⊥
Anchored contains (f ∷ fs) (p ∷ ps) =
    ((s : String) → contains s p ≡ false → f s ≡ s) × Anchored contains fs ps

-- No text that the replacements give has anything left for them to replace.
abbrev pub Settles : (String → String) → Type 0
Settles replace = (s : String) → replace (replace s) ≡ replace s

-- The attributes with their keys and nesting, each value being an empty text.
mutual
  pub key_of : Attr → Attr
  key_of (string_attr k s) = string_attr k ""
  key_of (group_attr k attrs) = group_attr k (keys_of attrs)
  key_of (other_attr k s) = string_attr k ""

  pub keys_of : Attrs → Attrs
  keys_of no_attrs = no_attrs
  keys_of (cons a rest) = cons (key_of a) (keys_of rest)

redact_text-key :
    (contains : String → String → Bool) (replacers : List (String → String)) (k s : String)
    → key_of (redact_text contains replacers k s) ≡ string_attr k ""
unfolding redact_text key_of
redact_text-key contains replacers k s =
    elim (Bool-cases (str_eq (redact_string contains replacers s) s)) [
      | inl same ↦ rw (redact_text, same) refl
      | inr other ↦ rw (redact_text, other) refl
    ]

mutual
  unfolding redact_attr key_of

  redact_attr-key :
      (contains : String → String → Bool) (replacers : List (String → String)) (a : Attr)
      → key_of (redact_attr contains replacers a) ≡ key_of a
  redact_attr-key contains replacers (string_attr k s) = refl
  redact_attr-key contains replacers (group_attr k attrs) =
      ap (group_attr k) (redact_attrs-keys contains replacers attrs)
  redact_attr-key contains replacers (other_attr k s) = redact_text-key contains replacers k s

  redact_attrs-keys :
      (contains : String → String → Bool) (replacers : List (String → String)) (attrs : Attrs)
      → keys_of (redact_attrs contains replacers attrs) ≡ keys_of attrs
  redact_attrs-keys contains replacers no_attrs = refl
  redact_attrs-keys contains replacers (cons a rest) =
      ap (λ k. cons k (keys_of (redact_attrs contains replacers rest)))
        (redact_attr-key contains replacers a)
      ∙ ap (λ ks. cons (key_of a) ks) (redact_attrs-keys contains replacers rest)

module _ (contains : String → String → Bool) (replacers : List (String → String)) where
  replace_all-without :
      (fs : List (String → String)) (ps : List String) (s : String)
      → Anchored contains fs ps
      → any_contained contains s ps ≡ false
      → replace_all fs s ≡ s
  unfolding replace_all any_contained
  replace_all-without [] ps s a h = refl
  replace_all-without (f ∷ fs) [] s a h = absurd a
  replace_all-without (f ∷ fs) (p ∷ ps) s (anchored, a) h = elim (Bool-cases (contains s p)) [
    | inl has ↦ absurd (ground arith)
    | inr lacks ↦
        let same = anchored s lacks in rw same (replace_all-without fs ps s a (ground arith))
  ]

  -- Where each pattern replaces nothing in a text without its trigger prefix, redactString does what
  -- it would do without the test for the prefixes: it applies the patterns one after another.
  pub redact_string-replace_all :
      (s : String)
      → Anchored contains replacers trigger_prefixes
      → redact_string contains replacers s ≡ replace_all replacers s
  unfolding redact_string needs_redaction
  redact_string-replace_all s a = elim (Bool-cases (needs_redaction contains s)) [
    | inl needed ↦ rw (redact_string, needed) refl
    | inr clear ↦
        let same = replace_all-without replacers trigger_prefixes s a clear in
        rw (redact_string, clear) (sym same)
  ]

  -- A text that the patterns leave as it is.
  abbrev pub Clean : String → Type 0
  Clean s = replace_all replacers s ≡ s

  -- The values of attributes: a text, the text form of another value, and those of a group. A key is
  -- not looked at.
  mutual
    pub CleanAttr : Attr → Type 0
    CleanAttr (string_attr key s) = Clean s
    CleanAttr (group_attr key attrs) = CleanAttrs attrs
    CleanAttr (other_attr key s) = Clean s

    pub CleanAttrs : Attrs → Type 0
    CleanAttrs no_attrs = Unit
    CleanAttrs (cons a rest) = CleanAttr a × CleanAttrs rest

  module _ (anchored : Anchored contains replacers trigger_prefixes)
      (settles : Settles (replace_all replacers)) where
    redact_string-Clean : (s : String) → Clean (redact_string contains replacers s)
    redact_string-Clean s = let e = redact_string-replace_all s anchored in rw e (settles s)

    redact_text-CleanAttr : (key s : String) → CleanAttr (redact_text contains replacers key s)
    unfolding redact_text CleanAttr
    redact_text-CleanAttr key s =
        let clean = redact_string-Clean s in
        elim (Bool-cases (str_eq (redact_string contains replacers s) s)) [
          | inl same ↦
              let here : redact_string contains replacers s ≡ s =
                (eq_iff (redact_string contains replacers s) s).0 same in
              rw (redact_text, same) (subst Clean here clean)
          | inr other ↦ rw (redact_text, other) clean
        ]

    mutual
      unfolding redact_attr CleanAttr

      redact_attr-CleanAttr : (a : Attr) → CleanAttr (redact_attr contains replacers a)
      redact_attr-CleanAttr (string_attr key s) = redact_string-Clean s
      redact_attr-CleanAttr (group_attr key attrs) = redact_attrs-CleanAttrs attrs
      redact_attr-CleanAttr (other_attr key s) = redact_text-CleanAttr key s

      redact_attrs-CleanAttrs : (attrs : Attrs) → CleanAttrs (redact_attrs contains replacers attrs)
      redact_attrs-CleanAttrs no_attrs = tt
      redact_attrs-CleanAttrs (cons a rest) =
          (redact_attr-CleanAttr a, redact_attrs-CleanAttrs rest)

    -- Where each pattern replaces nothing in a text without its trigger prefix and the replacements
    -- leave nothing for them to replace, an enabled handler passes on a record whose message and
    -- attribute values, in the text form of those that are no texts and in groups at any depth, hold
    -- nothing for the patterns to replace; it passes on the same attributes by number, nesting and
    -- key, and with them whatever their keys hold.
    pub handle-Clean :
        (r : Record)
        → let out = handle contains replacers true r in
          Clean out.message × CleanAttrs out.attrs × (keys_of out.attrs ≡ keys_of r.attrs)
    unfolding handle
    handle-Clean r = (
      redact_string-Clean r.message,
      redact_attrs-CleanAttrs r.attrs,
      redact_attrs-keys contains replacers r.attrs,
    )
