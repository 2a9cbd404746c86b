-- ===== src/Robots/Parse/Sound.antt =====
-- robots.ts: every document gives a policy within the bounds.
use mathlib.Core.Path.{subst}
use webprobe.Base.{
  suc, ◌≤◌, ◌≡◌, refl, ◌⊎◌, inl, inr, Bool, true, false, not, ◌&&◌, some, List, [], ◌∷◌, ◌++◌, All,
  length, length-append, filter, eqb, ltb, arith, Bool-cases, Option-cases, ◌==◌, contains,
}
use webprobe.Base.Text.{Text, codes, text_key}
use webprobe.Base.Value.{is_some}
use webprobe.Contracts.Products.{trim}
use webprobe.Robots.Escapes.{normalize_percent_escapes}
use webprobe.Robots.Glob.{star}
use webprobe.Robots.Allowed.{
  Directive, allow, disallow, RobotsRule, UnavailableReason, max_rules, max_rule_bytes,
  max_wildcards, byte_length,
}
use webprobe.Robots.Parse.{
  RobotsGroup, max_robots_bytes, until, cut_colon, Scan, Turn, stop, go_on, empty_scan, add_agent,
  add_rule, has_rules_value, check_rule, read_rule, add_sitemap, normalize_agent, read_field,
  read_line, read_lines, split_lines, with_agent, selected, rules_of, policy_of, parse_robots_txt,
}

-- A rule's pattern is a value's normal form, and not too long.
abbrev pub IsBounded : RobotsRule → Type 0
IsBounded r =
    (byte_length r.pattern ≤ max_rule_bytes)
    × ((value : Text) × (normalize_percent_escapes value false ≡ some r.pattern))

record IsGood (st : Scan) : Type 0 where
  counted : length (rules_of st.groups) ≤ st.rule_count
  few : st.rule_count ≤ max_rules
  bounded : All (λ g. All IsBounded g.rules) st.groups

abbrev IsGoodTurn : Turn → Type 0
IsGoodTurn (stop reason) = Unit
IsGoodTurn (go_on st) = IsGood st

All-append :
    (P : RobotsRule → Type 0) (xs ys : List RobotsRule) → All P xs → All P ys → All P (xs ++ ys)
All-append P [] ys hx hy = hy
All-append P (x ∷ xs) ys (h, hx) hy = (h, All-append P xs ys hx hy)

length-add_rule :
    (rule : RobotsRule) (groups : List RobotsGroup)
    → length (rules_of (add_rule rule groups)) ≤ suc (length (rules_of groups))
length-add_rule rule [] = omega arith
length-add_rule rule (g ∷ rest) = omega (
  arith,
  length-append (rules_of rest) g.rules,
  length-append (rules_of rest) (g.rules ++ rule ∷ []),
  length-append g.rules (rule ∷ []),
)

All-add_rule :
    (rule : RobotsRule) (groups : List RobotsGroup)
    → IsBounded rule
    → All (λ g. All IsBounded g.rules) groups
    → All (λ g. All IsBounded g.rules) (add_rule rule groups)
All-add_rule rule [] b h = tt
All-add_rule rule (g ∷ rest) b (own, h) = (All-append IsBounded g.rules (rule ∷ []) own (b, tt), h)

check_rule-IsGood :
    (directive : Directive) (value : Text) (st : Scan)
    → IsGood st
    → IsGoodTurn (check_rule directive value st)
unfolding check_rule
check_rule-IsGood directive value st good = elim (Bool-cases (ltb max_rules (suc st.rule_count))) [
  | inl full ↦ rw full tt
  | inr room ↦ elim (Bool-cases (ltb max_rule_bytes (byte_length value))) [
    | inl long ↦ rw (room, long) tt
    | inr short ↦ elim (Bool-cases (ltb max_wildcards (length (filter (λ c. eqb c star) value)))) [
      | inl wild ↦ rw (room, short, wild) tt
      | inr tame ↦ elim (Option-cases (normalize_percent_escapes value false)) [
        | inl bad ↦ rw (room, short, tame, bad) tt
        | inr (pattern, normal) ↦ elim (Bool-cases (ltb max_rule_bytes (byte_length pattern))) [
          | inl grown ↦ rw (room, short, tame, normal, grown) tt
          | inr fits ↦
              rw (room, short, tame, normal, fits)
                (record {
                  counted = omega (
                    arith,
                    good.counted,
                    length-add_rule (record { directive = directive; pattern = pattern }) st.groups,
                  );
                  few = ground (arith, room);
                  bounded =
                      All-add_rule (record { directive = directive; pattern = pattern }) st.groups
                        (ground (arith, fits), (value, normal)) good.bounded;
                })
        ]
      ]
    ]
  ]
]

read_rule-IsGood :
    (directive : Directive) (value : Text) (st : Scan)
    → IsGood st
    → IsGoodTurn (read_rule directive value st)
unfolding read_rule
read_rule-IsGood directive value st good = go st.groups good
  where
    go :
        (gs : List RobotsGroup)
        → IsGood (record st { groups = gs })
        → IsGoodTurn (read_rule directive value (record st { groups = gs }))
    go [] good = good
    go (g ∷ rest) good = elim (Bool-cases (has_rules_value directive value)) [
      | inl given ↦ rw given (
          check_rule-IsGood directive value (record st { groups = g ∷ rest; seen_directive = true })
            (record { counted = good.counted; few = good.few; bounded = good.bounded }))
      | inr empty ↦
          rw empty (record { counted = good.counted; few = good.few; bounded = good.bounded })
    ]

add_agent-IsGood : (agent : Text) (st : Scan) → IsGood st → IsGood (add_agent agent st)
add_agent-IsGood agent st good = go st.groups good
  where
    go :
        (gs : List RobotsGroup)
        → IsGood (record st { groups = gs })
        → IsGood (add_agent agent (record st { groups = gs }))
    go [] good = record { counted = good.counted; few = good.few; bounded = (tt, tt) }
    go (g ∷ rest) good = elim (Bool-cases st.seen_directive) [
      | inl seen ↦ rw seen (record {
        counted = omega (arith, good.counted, length-append (rules_of rest ++ g.rules) []);
        few = good.few;
        bounded = (tt, good.bounded);
      })
      | inr open_ ↦
          rw open_ (record { counted = good.counted; few = good.few; bounded = good.bounded })
    ]

add_sitemap-IsGood : (value : Text) (st : Scan) → IsGood st → IsGood (add_sitemap value st)
add_sitemap-IsGood [] st good = good
add_sitemap-IsGood (c ∷ s) st good = record {
  counted = good.counted;
  few = good.few;
  bounded = good.bounded;
}

module _ (lower_case : Text → Text) where
  read_field-IsGood :
      (key value : Text) (st : Scan) → IsGood st → IsGoodTurn (read_field lower_case key value st)
  read_field-IsGood key value st good = elim (Bool-cases (key == codes "sitemap")) [
    | inl a ↦ rw a (add_sitemap-IsGood value st good)
    | inr a ↦ elim (Bool-cases (key == codes "user-agent")) [
      | inl b ↦ rw (a, b) (add_agent-IsGood (normalize_agent lower_case value) st good)
      | inr b ↦ elim (Bool-cases (key == codes "allow")) [
        | inl c ↦ rw (a, b, c) (read_rule-IsGood allow value st good)
        | inr c ↦ elim (Bool-cases (key == codes "disallow")) [
          | inl d ↦ rw (a, b, c, d) (read_rule-IsGood disallow value st good)
          | inr d ↦ rw (a, b, c, d) good
        ]
      ]
    ]
  ]

  read_line-IsGood : (raw : Text) (st : Scan) → IsGood st → IsGoodTurn (read_line lower_case raw st)
  read_line-IsGood raw st good = elim (Option-cases (cut_colon (trim (until 35 raw)))) [
    | inl blank ↦ rw (IsGoodTurn, blank) good
    | inr (field, cut) ↦
        rw (IsGoodTurn, cut) (read_field-IsGood (lower_case (trim field.0)) (trim field.1) st good)
  ]

  Turn-cases :
      (t : Turn) → ((r : UnavailableReason) × (t ≡ stop r)) ⊎ ((st : Scan) × (t ≡ go_on st))
  Turn-cases (stop r) = inl (r, refl)
  Turn-cases (go_on st) = inr (st, refl)

  read_lines-IsGood :
      (lines : List Text) (st : Scan) → IsGood st → IsGoodTurn (read_lines lower_case lines st)
  unfolding read_lines
  read_lines-IsGood [] st good = good
  read_lines-IsGood (raw ∷ rest) st good = elim (Turn-cases (read_line lower_case raw st)) [
    | inl (r, stops) ↦ rw (IsGoodTurn, stops) tt
    | inr (next, goes) ↦
        let next_good : IsGood next = subst IsGoodTurn goes (read_line-IsGood raw st good) in
        rw (IsGoodTurn, goes) (read_lines-IsGood rest next next_good)
  ]

-- The rules that are selected are some of all.
length-with_agent :
    (token : Text) (groups : List RobotsGroup)
    → length (rules_of (with_agent token groups)) ≤ length (rules_of groups)
length-with_agent token [] = omega arith
length-with_agent token (g ∷ rest) = elim (Bool-cases (contains token g.agents)) [
  | inl has ↦ rw has (
      omega (
        arith,
        length-with_agent token rest,
        length-append (rules_of (with_agent token rest)) g.rules,
        length-append (rules_of rest) g.rules,
      ))
  | inr lacks ↦
      rw lacks (omega (arith, length-with_agent token rest, length-append (rules_of rest) g.rules))
]

All-with_agent :
    (token : Text) (groups : List RobotsGroup)
    → All (λ g. All IsBounded g.rules) groups
    → All IsBounded (rules_of (with_agent token groups))
All-with_agent token [] h = tt
All-with_agent token (g ∷ rest) (own, h) = elim (Bool-cases (contains token g.agents)) [
  | inl has ↦ rw has (
      All-append IsBounded (rules_of (with_agent token rest)) g.rules (All-with_agent token rest h)
        own)
  | inr lacks ↦ rw lacks (All-with_agent token rest h)
]

-- Few rules, each within its bound.
abbrev pub IsWithin : List RobotsRule → Type 0
IsWithin rules = (length rules ≤ max_rules) × All IsBounded rules

selected-IsWithin :
    (token : Text) (st : Scan) → IsGood st → IsWithin (rules_of (selected token st.groups))
selected-IsWithin token st good =
    go (with_agent token st.groups)
      (omega (arith, length-with_agent token st.groups, good.counted, good.few))
      (All-with_agent token st.groups good.bounded)
  where
    go :
        (own : List RobotsGroup)
        → length (rules_of own) ≤ max_rules
        → All IsBounded (rules_of own)
        → IsWithin
            (rules_of (elim own [ [] ↦ with_agent (star ∷ []) st.groups | g ∷ rest ↦ g ∷ rest ]))
    go [] few bounded = (
      omega (arith, length-with_agent (star ∷ []) st.groups, good.counted, good.few),
      All-with_agent (star ∷ []) st.groups good.bounded,
    )
    go (g ∷ rest) few bounded = (few, bounded)

policy_of-IsWithin : (token : Text) (t : Turn) → IsGoodTurn t → IsWithin (policy_of token t).rules
policy_of-IsWithin token (stop reason) good = (omega arith, tt)
policy_of-IsWithin token (go_on st) good = selected-IsWithin token st good

empty-IsGood : IsGood empty_scan
empty-IsGood = record { counted = omega arith; few = omega arith; bounded = tt }

-- Whatever the document, the policy has at most 1024 rules, each with a pattern of at most 2048
-- bytes that is the normal form of some value; and it is unavailable, or the document has at most
-- 65536 bytes.
pub parse_robots_txt_bounds :
    (lower_case : Text → Text) (text user_agent : Text) (complete : Bool)
    → (length (parse_robots_txt lower_case text user_agent complete).rules ≤ max_rules)
      × All IsBounded (parse_robots_txt lower_case text user_agent complete).rules
      × ((is_some (parse_robots_txt lower_case text user_agent complete).unavailable_reason ≡ true)
          ⊎ (byte_length text ≤ max_robots_bytes))
unfolding parse_robots_txt
parse_robots_txt_bounds lower_case text user_agent complete =
    elim (Bool-cases (ltb max_robots_bytes (byte_length text))) [
      | inl large ↦ rw large (omega arith, tt, inl refl)
      | inr fits ↦ elim (Bool-cases (eqb (byte_length text) max_robots_bytes && not complete)) [
        | inl unsure ↦ rw (fits, unsure) (omega arith, tt, inl refl)
        | inr sure ↦
            let within =
              policy_of-IsWithin (normalize_agent lower_case user_agent)
                (read_lines lower_case (split_lines text) empty_scan)
                (read_lines-IsGood lower_case (split_lines text) empty_scan empty-IsGood) in
            rw (fits, sure) (within.0, within.1, inr (ground (arith, fits)))
      ]
    ]
